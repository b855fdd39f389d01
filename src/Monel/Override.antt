-- ===== src/Monel/Override.antt =====
-- Overrides: argus/monel/override.go. The web handler's checks stand with the access lists.
use argus.Prelude.{
  ℕ, zero, suc, Bool, ◌&&◌, ◌||◌, not, Option, none, some, List, [], ◌∷◌, ◌++◌, leb, ◌==◌,
  if◌then◌else◌,
}
use argus.Text.{Text, codes, text_eq}
use argus.Dict.{insert, delete}
use argus.Monel.Stats.{unix}
use argus.Monel.State.{Ptr, Override, Persist, expire_at, World, modify, modify_p}
use argus.Monel.Determine.{is_set}
use argus.Monel.Transition.{loggit_l, re_update, now_nano}

-- What an element hands down to its children.
abbrev pub covered : Persist → Bool
covered p = is_set p.override || p.anc_in_ov

-- The loop over the children: AncInOv is set, then `go` is called for the child.
unfoldable pub each_child : Bool → (Ptr → World → World) → List Ptr → World → World
each_child v go [] w = w
each_child v go (c ∷ cs) w =
    each_child v go cs (go c (modify_p c (λ p. record p { anc_in_ov = v }) w))

-- ovPropDown. The source recurs down the tree of elements; the fuel bounds the depth.
unfoldable pub ov_prop_down : ℕ → Ptr → World → World
ov_prop_down zero m w = w
ov_prop_down (suc fuel) m w =
    each_child (covered (w.elem m).p) (ov_prop_down fuel) (w.elem m).children w

unfoldable pub log_unless_empty : Ptr → Text → Text → World → World
log_unless_empty m value msg w = if text_eq value [] then w else loggit_l m (codes "OVERRIDE") msg w

unfoldable pub expires_of : Option Override → ℕ
expires_of none = 0
expires_of (some ov) = ov.expires

-- setOverrideExpire
unfoldable pub set_override_expire : Ptr → World → World
unfolding expires_of
set_override_expire m w =
    let exp = expires_of (w.elem m).p.override in
    if exp == 0 then w else record w { calls = w.calls ++ expire_at exp m ∷ [] }

unfoldable pub put_override : Ptr → Option Override → World → World
put_override m ov w =
    modify m (λ x. record x { p = record (x.p) { override = ov }; web_time = now_nano w }) w

-- SetOverride
unfoldable pub set_override : ℕ → Ptr → Override → World → World
unfolding log_unless_empty put_override
set_override fuel m ov w =
    let w1 = log_unless_empty m ov.text ov.text w in
    let w2 = log_unless_empty m ov.user (codes "enabled by " ++ ov.user) w1 in
    let w3 = put_override m (some ov) w2 in
    let w4 = record w3 { inoverride = insert (w3.elem m).cf.unique m w3.inoverride } in
    set_override_expire m (re_update m (codes "override") (ov_prop_down fuel m w4))

-- DelOverride
unfoldable pub del_override : ℕ → Ptr → Text → Text → World → World
unfolding log_unless_empty put_override
del_override fuel m user reason w =
    let w1 = log_unless_empty m reason reason w in
    let w2 = log_unless_empty m user (codes "removed by " ++ user) w1 in
    let w3 = put_override m none w2 in
    let w4 = record w3 { inoverride = delete (w3.elem m).cf.unique w3.inoverride } in
    re_update m (codes "override") (ov_prop_down fuel m w4)

-- overrideExpire
unfoldable pub override_expire : ℕ → Ptr → World → World
unfolding expires_of
override_expire fuel m w =
    let exp = expires_of (w.elem m).p.override in
    let expired = del_override fuel m (codes "system") (codes "expired") w in
    if not (exp == 0) && leb exp (unix w.env.clock) then expired else w
