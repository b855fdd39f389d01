-- ===== src/Service/Hwab/Shaped.antt =====
-- What sampling keeps of a prediction: argus/service/hwab.go, AddAt and make.
use native.Mathlib.Nat.{add-mul-mod_self_left}
use argus.Prelude.Int.{pos}
use argus.Prelude.{
  ℕ, ◌+◌, ◌-◌, ◌*◌, ◌/◌, ◌%◌, ◌≤◌, ◌<◌, ◌≡◌, ◌↔◌, refl, arith, true, leb, length-replicate,
}
use argus.Service.Hwab.{Reals, HwabConf, Hwab, twin, idx, idx_of_t, make, hwab_config}
use argus.Service.Hwab.Keeps.{IsShaped}

module _ {F : Type 0} (re : Reals F) where
  -- A time that is not before `created` has its place: counted in windows from then, and round.
  pub idx_of_t_after :
      (now : ℕ) (h : Hwab F)
      → 1 ≤ h.buckets
      → h.created ≤ now
      → idx_of_t now h ≡ pos ((now - h.created) / twin % h.buckets)
  unfolding idx_of_t idx
  idx_of_t_after now h b le =
      let here : leb h.created now ≡ true = ground arith in
      let q = (now - h.created) / twin in
      let once : q + h.buckets * 1 ≡ q + h.buckets = omega arith in
      rw (here, rw once at (add-mul-mod_self_left q h.buckets 1)) refl

  -- What a number of windows leaves.
  record After (n : ℕ) (h h' : Hwab F) : Type 0 where
    shaped : IsShaped h'
    buckets : h'.buckets ≡ h.buckets
    created : h'.created ≡ h.created
    cstart : h'.cstart ≡ h.cstart + n * twin
    laps : 2 ≤ h.lap → 2 ≤ h'.lap

  -- What a value leaves of a prediction.
  pub record Sampled (now : ℕ) (h h' : Hwab F) : Type 0 where
    pub shaped : IsShaped h'
    pub buckets : h'.buckets ≡ h.buckets
    pub created : h'.created ≡ h.created
    pub begun : h'.cstart ≤ now
    pub current : now < h'.cstart + twin
    pub phase : h'.cstart % twin ≡ h.cstart % twin
    pub laps : 2 ≤ h.lap → 2 ≤ h'.lap

  -- A configured prediction with a period of at least a window has its buckets.
  pub hwab_config-IsShaped :
      (cf : HwabConf F) (now : ℕ)
      → twin ≤ cf.period
      → IsShaped (hwab_config re cf now)
        × ((hwab_config re cf now).created ≤ (hwab_config re cf now).cstart)
        × ((hwab_config re cf now).cstart ≤ now)
  unfolding hwab_config make
  hwab_config-IsShaped cf now p = (
    record {
      has_buckets = omega arith;
      c_full = length-replicate _ _;
      d_full = length-replicate _ _;
    },
    omega arith,
    omega arith,
  )

  -- With a shorter period it has none.
  pub hwab_config-bucketless :
      (cf : HwabConf F) (now : ℕ) → ((hwab_config re cf now).buckets ≡ 0) ↔ (cf.period < twin)
  unfolding hwab_config make
  hwab_config-bucketless cf now = (λ e. omega arith, λ l. omega arith)
