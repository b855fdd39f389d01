-- ===== src/Darp/States/Heard.antt =====
-- A host is up while it was heard of lately: argus/darp/darp.go.
use argus.Prelude.{
  ℕ, ◌+◌, ◌≡◌, refl, sym, ap, ◌∙◌, Bool, true, false, ◌||◌, Option, none, some, List, [], ◌∷◌,
  arith, ltb, if◌then◌else◌, Bool-cases, inl, inr,
}
use argus.Text.{Text, text_eq, text_eq_iff}
use argus.Dict.{Dict, lookup, lookup-insert}
use argus.Darp.States.{
  HostStatus, Darps, connected, disco, is_fresh, put_known, put_up, put_down, statuses_from,
  get_statuses, is_up_now,
}

-- A request of a host at a time, or the end of a connection of it.
pub data Event : Type 0 where
  request : ℕ → Text → Event
  closed : Text → Event

abbrev pub handle : Event → Darps → Darps
handle (request now name) w = connected now name w
handle (closed name) w = disco name w

-- The events, the latest first.
unfoldable pub after_all : List Event → Darps → Darps
unfolding connected disco
after_all [] w = w
after_all (e ∷ es) w = handle e (after_all es w)

abbrev pub requested : ℕ → ℕ → Bool
requested now time = ltb now (time + 120)

-- Whether the latest event of a host is a request of the last two minutes.
abbrev pub heard_of : ℕ → Text → List Event → Bool
heard_of now name [] = false
heard_of now name (request time host ∷ es) =
    if text_eq host name then requested now time else heard_of now name es
heard_of now name (closed host ∷ es) = if text_eq host name then false else heard_of now name es

lookup-put_known :
    (host name : Text) (f : HostStatus → HostStatus) (o : Option HostStatus) (ss : Dict HostStatus)
    → (s : HostStatus) → lookup host ss ≡ o
    → lookup name ss ≡ some s
    → lookup name (put_known host f o ss) ≡ (if text_eq host name then some (f s) else some s)
lookup-put_known host name f none ss s h e = elim (Bool-cases (text_eq host name)) [
  | inl q ↦
      let same : lookup name ss ≡ none =
        ap (λ k. lookup k ss) (sym ((text_eq_iff host name).0 q)) ∙ h in
      absurd (ground (arith, same, e))
  | inr q ↦ rw q e
]
lookup-put_known host name f (some r) ss s h e = elim (Bool-cases (text_eq host name)) [
  | inl q ↦
      let same : some r ≡ some s =
        sym h ∙ ap (λ k. lookup k ss) ((text_eq_iff host name).0 q) ∙ e in
      rw (lookup-insert host name (f r) ss, q)
        (ap (λ x. elim x as (λ y. Option HostStatus) [ none ↦ none | some t ↦ some (f t) ]) same)
  | inr q ↦ rw (lookup-insert host name (f r) ss, q) e
]

-- The status of a host that has one, after the events: whether it is up, and when it was last heard.
Tells : ℕ → Text → List Event → Darps → Type 0
Tells now name es w =
    (s : HostStatus) × (lookup name w.darp_status ≡ some s)
    × (is_fresh now s ≡ heard_of now name es)

event-Tells :
    (now : ℕ) (name host : Text) (f : HostStatus → HostStatus) (w : Darps) (b c : Bool)
    → ((s : HostStatus) → is_fresh now (f s) ≡ b)
    → (s : HostStatus) → lookup name w.darp_status ≡ some s
    → is_fresh now s ≡ c
    → (t : HostStatus) × (lookup name (put_known host f (lookup host w.darp_status) w.darp_status)
        ≡ some t)
      × (is_fresh now t ≡ (if text_eq host name then b else c))
event-Tells now name host f w b c g s e h = elim (Bool-cases (text_eq host name)) [
  | inl q ↦ (f s, lookup-put_known host name f _ w.darp_status s refl e ∙ rw q refl, rw q (g s))
  | inr q ↦ (s, lookup-put_known host name f _ w.darp_status s refl e ∙ rw q refl, rw q h)
]

after_all-Tells :
    (now : ℕ) (name : Text) (es : List Event) (w : Darps) (s : HostStatus)
    → lookup name w.darp_status ≡ some s
    → s.is_up ≡ false
    → Tells now name es (after_all es w)
unfolding after_all Tells connected disco
after_all-Tells now name [] w s e d = (s, e, rw d refl)
after_all-Tells now name (request time host ∷ es) w s e d =
    let (t, l, h) = after_all-Tells now name es w s e d in
    event-Tells now name host (put_up time) (after_all es w) (requested now time)
      (heard_of now name es) (λ r. refl) t l h
after_all-Tells now name (closed host ∷ es) w s e d =
    let (t, l, h) = after_all-Tells now name es w s e d in
    event-Tells now name host put_down (after_all es w) false (heard_of now name es) (λ r. refl) t l
      h

after_all-same :
    (es : List Event) (w : Darps)
    → ((after_all es w).is_enabled ≡ w.is_enabled) × ((after_all es w).my_id ≡ w.my_id)
unfolding after_all connected disco
after_all-same [] w = (refl, refl)
after_all-same (request time host ∷ es) w = after_all-same es w
after_all-same (closed host ∷ es) w = after_all-same es w

lookup-statuses_from :
    (now : ℕ) (my_id name : Text) (ss : Dict HostStatus) (s : HostStatus)
    → lookup name ss ≡ some s
    → lookup name (statuses_from now my_id ss) ≡ some (text_eq name my_id || is_fresh now s)
unfolding lookup
lookup-statuses_from now my_id name [] s e = absurd (ground (arith, e))
lookup-statuses_from now my_id name ((n, r) ∷ ss) s e = elim (Bool-cases (text_eq n name)) [
  | inl q ↦
      let same : n ≡ name = (text_eq_iff n name).0 q in
      let one : some r ≡ some s = rw q at e in
      rw q (
        ap (λ k. some (text_eq k my_id || is_fresh now r)) same
        ∙ ap
            (λ x. elim x as (λ y. Option Bool) [
              | none ↦ none
              | some t ↦ some (text_eq name my_id || is_fresh now t)
            ])
            one)
  | inr q ↦
      let rest : lookup name ss ≡ some s = rw q at e in
      rw q (lookup-statuses_from now my_id name ss s rest)
]

-- Where darp is enabled and a host is configured, and has not been heard of: after requests of
-- hosts and ends of connections, in any order, it is up, both for IsUp and among the statuses of
-- GetStatuses, just if it is this host, or if the latest event of it is a request of the last two
-- minutes.
pub is_up_now-heard_of :
    (now : ℕ) (name : Text) (es : List Event) (w : Darps) (s : HostStatus)
    → w.is_enabled ≡ true
    → lookup name w.darp_status ≡ some s
    → s.is_up ≡ false
    → (is_up_now now name (after_all es w) ≡ (text_eq name w.my_id || heard_of now name es))
      × (lookup name (get_statuses now (after_all es w))
          ≡ some (text_eq name w.my_id || heard_of now name es))
unfolding is_up_now get_statuses Tells
is_up_now-heard_of now name es w s on e d =
    let (t, l, h) = after_all-Tells now name es w s e d in
    let (a, b) = after_all-same es w in
    let lit : (after_all es w).is_enabled ≡ true = a ∙ on in
    (
      rw (lit, l, b, h) refl,
      rw lit (lookup-statuses_from now (after_all es w).my_id name _ t l ∙ rw (b, h) refl),
    )
