-- ===== src/Transfer/Paths/Tests.antt =====
-- crates/transfer/src/paths.rs on concrete paths.
use remote_codex.Base.{◌≡◌, refl, true, [], ◌∷◌, ok, err, all}
use remote_codex.Transfer.{transfer_path}
use remote_codex.Transfer.Paths.{
  codes, components, path_components, first_components, later_components, split_slash, names_of,
  byte_length,
}
use remote_codex.Transfer.Paths.Plain.{is_plain, components_stay}

-- `src//./main.rs`
dotted : components (codes "src//./main.rs") ≡ ok (codes "src" ∷ codes "main.rs" ∷ [])
unfolding components path_components first_components later_components split_slash names_of
    byte_length
dotted = refl

upward : components (codes "src/../main.rs") ≡ err transfer_path
unfolding components path_components first_components later_components split_slash names_of
    byte_length
upward = refl

components_stay_example : all is_plain (codes "src" ∷ codes "main.rs" ∷ []) ≡ true
components_stay_example =
    components_stay (codes "src//./main.rs") (codes "src" ∷ codes "main.rs" ∷ []) dotted
