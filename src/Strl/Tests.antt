-- ===== src/Strl/Tests.antt =====
-- Tests of the bounded copies, and the theorems at inputs that meet their hypotheses.
use flappy.Base.{◌≡◌, refl, codes}
use flappy.Strl.{strlcpy}

truncates : strlcpy (codes "abcdef") 4 ≡ (codes "abc", 6)
unfolding strlcpy
truncates = refl
