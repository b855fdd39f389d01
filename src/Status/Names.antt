-- ===== src/Status/Names.antt =====
-- The names of severities, gravities and modes, printed and read back.
use argus.Prelude.{ℕ, zero, suc, ◌≤◌, ◌≡◌, refl, ap, [], ◌∷◌, arith, leb, if◌then◌else◌}
use argus.Text.{Text, to_lower, to_lower_rune}
use argus.Status.{Status, unknown, critical, max_status, status_string, status_value}
use argus.Status.Gravity.{
  Gravity, DarpMode, grav_self, mode_redundant, gravity_string, gravity_value, darp_mode_string,
  darp_mode_value,
}

-- A severity that String prints is read back by StatusValue up to critical; the names of override
-- and depends are read back as unknown.
pub value-string :
    (s : Status)
    → s ≤ max_status
    → status_value (status_string s) ≡ (if leb s critical then s else unknown)
unfolding status_value status_string
value-string zero h = refl
value-string (suc zero) h = refl
value-string (suc (suc zero)) h = refl
value-string (suc (suc (suc zero))) h = refl
value-string (suc (suc (suc (suc zero)))) h = refl
value-string (suc (suc (suc (suc (suc zero))))) h = refl
value-string (suc (suc (suc (suc (suc (suc zero)))))) h = refl
value-string (suc (suc (suc (suc (suc (suc (suc zero))))))) h = refl
value-string (suc (suc (suc (suc (suc (suc (suc (suc n)))))))) h = absurd (omega arith)

gravity_value-string : (g : Gravity) → g ≤ grav_self → gravity_value (gravity_string g) ≡ g
unfolding gravity_value gravity_string
gravity_value-string zero h = refl
gravity_value-string (suc zero) h = refl
gravity_value-string (suc (suc zero)) h = refl
gravity_value-string (suc (suc (suc zero))) h = refl
gravity_value-string (suc (suc (suc (suc zero)))) h = refl
gravity_value-string (suc (suc (suc (suc (suc n))))) h = absurd (omega arith)

mode_value-string : (d : DarpMode) → d ≤ mode_redundant → darp_mode_value (darp_mode_string d) ≡ d
unfolding darp_mode_value darp_mode_string
mode_value-string zero h = refl
mode_value-string (suc zero) h = refl
mode_value-string (suc (suc zero)) h = refl
mode_value-string (suc (suc (suc zero))) h = refl
mode_value-string (suc (suc (suc (suc n)))) h = absurd (omega arith)

to_lower_rune_idem : (c : ℕ) → to_lower_rune (to_lower_rune c) ≡ to_lower_rune c
to_lower_rune_idem c = ground arith

to_lower_idem : (t : Text) → to_lower (to_lower t) ≡ to_lower t
to_lower_idem [] = refl
to_lower_idem (c ∷ t) = rw (to_lower_rune_idem c) (ap (λ r. to_lower_rune c ∷ r) (to_lower_idem t))

-- The case of a severity's name does not matter.
value-to_lower : (t : Text) → status_value (to_lower t) ≡ status_value t
unfolding status_value
value-to_lower t = rw (to_lower_idem t)
