-- ===== src/Dewey/Compare/Tests.antt =====
-- Tests of the version comparison, and its theorems at inputs that meet their hypotheses.
use flappy.Base.{[], ◌-◌, ◌∷◌, Bytes, ◌≡◌, ◌≢◌, refl, some, arith, codes, ◌^◌}
use flappy.Dewey.Compare.{le, ge, Sign, less, equal, greater, cmpver, dewey_cmp}
use flappy.Dewey.Compare.Order.{
  IsVersion, cmpver-flip, cmpver_trans, dewey_cmp_lem, dewey_cmp-cmpver,
}
use flappy.Dewey.Compare.Spec.{flip, holds, compare_arr}
use flappy.Dewey.Version.{Arr, mkversion}
use flappy.Dewey.Version.Total.{Fits, mkversion_total}
use flappy.Dewey.Version.Bounds.{IsSmallArr, mkversion-IsSmallArr}

revision_counts : cmpver (codes "foo-1.0") (codes "foo-1.0_1") ≡ some less
unfolding cmpver
revision_counts = refl

rc_order : cmpver (codes "foo-2.0rc3") (codes "foo-2.0rc2") ≡ some greater
unfolding cmpver
rc_order = refl

zero_revision : cmpver (codes "foo-blah-100dpi-21") (codes "foo-blah-100dpi-21_0") ≡ some equal
unfolding cmpver
zero_revision = refl

component_first : cmpver (codes "foo-1.0.1") (codes "foo-1.0_1") ≡ some greater
unfolding cmpver
component_first = refl

abbrev old : Bytes
old = codes "1.0rc2"

abbrev new : Bytes
new = codes "1.0_3"

abbrev newer : Bytes
newer = codes "1.0.1"

old-IsVersion : IsVersion old
old-IsVersion = omega arith

new-IsVersion : IsVersion new
new-IsVersion = omega arith

newer-IsVersion : IsVersion newer
newer-IsVersion = omega arith

mkversion_total_example : (r : Arr) × (mkversion old ≡ some r) × Fits r
mkversion_total_example = mkversion_total old (omega arith)

abbrev old_arr : Arr
old_arr = record { size = 62; v = 1 ∷ 0 ∷ 0 ∷ (2 ^ 32 - 1) ∷ 2 ∷ []; revision = 0 }

old_array : mkversion old ≡ some old_arr
unfolding mkversion
old_array = refl

mkversion-IsSmallArr_example : IsSmallArr old_arr
mkversion-IsSmallArr_example = mkversion-IsSmallArr old (omega arith) old_array

dewey_cmp_lem_example :
    (l : Arr) × (r : Arr) × (mkversion old ≡ some l)
    × (mkversion new ≡ some r)
    × (dewey_cmp old le new ≡ some (holds (compare_arr l r) le))
dewey_cmp_lem_example = dewey_cmp_lem old le new old-IsVersion new-IsVersion

cmpver-flip_example : (s : Sign) × (cmpver old new ≡ some s) × (cmpver new old ≡ some (flip s))
cmpver-flip_example = cmpver-flip old new old-IsVersion new-IsVersion

dewey_cmp-cmpver_example :
    (s : Sign) × (cmpver old new ≡ some s) × (dewey_cmp old ge new ≡ some (holds s ge))
dewey_cmp-cmpver_example = dewey_cmp-cmpver old ge new old-IsVersion new-IsVersion

old-new : cmpver old new ≡ some less
unfolding cmpver
old-new = refl

new-newer : cmpver new newer ≡ some less
unfolding cmpver
new-newer = refl

cmpver_trans_example : cmpver old newer ≢ some greater
cmpver_trans_example =
    cmpver_trans old new newer old-IsVersion new-IsVersion newer-IsVersion (cc old-new)
      (cc new-newer)
