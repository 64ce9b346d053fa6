-- ===== src/Json/Puts.antt =====
-- What `value["name"] = v` does to a JSON object.
use package.text.Mathlib.Text.{◌==◌ as str_eq}
use package.text.Mathlib.TextEquality.{eq_iff}
use remote_codex.Base.{
  String, ◌≡◌, refl, sym, ap, ◌∙◌, Bool, true, false, some, if◌then◌else◌, is_some,
}
use remote_codex.Transfer.Staging.Arrival.{str_eq_refl}
use remote_codex.Json.{Value, Fields, end, field, find, put}

pub find-put :
    (name other : String) (v : Value) (f : Fields)
    → str_eq other name ≡ false
    → find name (put other v f) ≡ find name f
find-put name other v end differs = rw differs refl
find-put name other v (field first w rest) differs =
    found (str_eq first other) refl (find-put name other v rest differs)
  where
    found :
        (b : Bool)
        → str_eq first other ≡ b
        → find name (put other v rest) ≡ find name rest
        → find name (if b then field other v rest else field first w (put other v rest))
          ≡ (if str_eq first name then some w else find name rest)
    found true same rest_same =
        let named : str_eq first name ≡ false =
          ap (λ n. str_eq n name) ((eq_iff first other).0 same) ∙ differs in
        rw (named, differs) refl
    found false differ rest_same = rw rest_same refl

pub put_found : (name : String) (v : Value) (f : Fields) → is_some (find name (put name v f)) ≡ true
put_found name v end = rw (str_eq_refl name) refl
put_found name v (field first w rest) = found (str_eq first name) refl (put_found name v rest)
  where
    found :
        (b : Bool)
        → str_eq first name ≡ b
        → is_some (find name (put name v rest)) ≡ true
        → is_some (find name (if b then field name v rest else field first w (put name v rest)))
          ≡ true
    found true same later = rw (str_eq_refl name) refl
    found false differs later = rw differs later

pub put_grows :
    (n name : String) (v : Value) (f : Fields)
    → is_some (find n f) ≡ true
    → is_some (find n (put name v f)) ≡ true
put_grows n name v f there = by_name (str_eq name n) refl
  where
    by_name : (b : Bool) → str_eq name n ≡ b → is_some (find n (put name v f)) ≡ true
    by_name true same =
        ap (λ m. is_some (find m (put name v f))) (sym ((eq_iff name n).0 same))
        ∙ put_found name v f
    by_name false differs = ap is_some (find-put n name v f differs) ∙ there
