-- ===== src/Index/Directory/Install.antt =====
-- The directory after a split (include/viper/cceh.hpp, CCEH::Insert) is in order again.
use hih.Prelude.{
  ℕ, ◌+◌, ◌*◌, ◌/◌, ◌^◌, ◌<◌, ◌≡◌, refl, ap, ◌∙◌, inl, inr, arith, Eq-cases, two_pow_suc,
}
use native.Mathlib.Numerals.{add-one}
use hih.Index.Segment.{Segment, prefix}
use hih.Index.Directory.{Cceh, redirect, install}
use hih.Index.Directory.Routing.{IsRouted, redirect-halved, redirect_doubled}
use hih.Index.Directory.Halves.{
  x_fit, registered, halved-Fits, doubled-Fits, install_halved-Run, install_doubled-Run,
}

-- A directory of depth below 64 whose every entry leads to a segment that fits it, as do all entries
-- that the segment's depth does not tell from it: after a split of the segment that a 64-bit hash
-- leads to, into two segments one level deeper, the directory, doubled or not, is again of that kind.
pub install-IsRouted :
    (c : Cceh) (key_hash : ℕ) (s0 s1 : Segment)
    → let id = c.entries (prefix key_hash c.depth) in
      IsRouted c
      → key_hash < 2 ^ 64
      → c.depth < 64
      → s0.local_depth ≡ (c.segments id).local_depth + 1
      → s1.local_depth ≡ (c.segments id).local_depth + 1
      → IsRouted (install c key_hash id s0 s1)
unfolding install
install-IsRouted c key_hash s0 s1 routed small deep e0 e1 =
    let at = prefix key_hash c.depth in
    let shallow = (routed.fits at (x_fit c key_hash s0 s1 routed small deep)).shallow in
    let here : Cceh = registered c key_hash s0 s1 routed small deep e0 e1 in
    let level = (c.segments (c.entries at)).local_depth in
    let at_fit = x_fit c key_hash s0 s1 routed small deep in
    let depth_eq = ap (λ (l : ℕ). redirect here at (c.entries at) c.num_segments l) e0 in
    elim (Eq-cases level c.depth) [
      | inl full ↦
          rw
            (depth_eq
              ∙ redirect_doubled here at (c.entries at) c.num_segments (level + 1) (rw full))
            (record {
              sized = refl;
              known = λ y fit.
                  let double : 2 ^ (c.depth + 1) ≡ 2 * 2 ^ c.depth =
                    rw add-one (two_pow_suc c.depth) in
                  ground (arith, routed.known (y / 2), routed.known at at_fit);
              fits = doubled-Fits c key_hash s0 s1 routed small deep e0 e1 full;
              one_run = install_doubled-Run c key_hash s0 s1 routed small deep e0 e1 full;
            })
      | inr room ↦
          rw
            (depth_eq
              ∙ redirect-halved here at (c.entries at) c.num_segments (level + 1) (omega arith)
                  (omega arith))
            (record {
              sized = routed.sized;
              known = λ y fit. ground (arith, routed.known y);
              fits = halved-Fits c key_hash s0 s1 routed small deep e0 e1 (omega arith);
              one_run = install_halved-Run c key_hash s0 s1 routed small deep e0 e1 (omega arith);
            })
    ]
