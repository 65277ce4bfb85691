-- ===== src/ValuePath/Tests.antt =====
-- Paths that the grammar has and lacks.
use decision_memory.Prelude.{nat_eq, pair_eq, list_eq, ◌≡◌, refl, true, false, []}
use decision_memory.Text.{codes}
use decision_memory.ValuePath.{is_valid_value_path}

good_paths :
    (is_valid_value_path (codes "decision.alternatives[12].title") ≡ true)
    × (is_valid_value_path (codes "why[0]") ≡ true)
    × (is_valid_value_path (codes "a[1][2].b") ≡ true)
unfolding is_valid_value_path
good_paths = (refl, refl, refl)

bad_paths :
    (is_valid_value_path (codes "why[]") ≡ false)
    × (is_valid_value_path (codes "why[0") ≡ false)
    × (is_valid_value_path (codes "a..b") ≡ false)
    × (is_valid_value_path [] ≡ false)
unfolding is_valid_value_path
bad_paths = (refl, refl, refl, refl)
