-- ===== src/Monel/Tree.antt =====
-- The tree of elements: names, links and removal in argus/monel/monel.go, and the dependencies of
-- depends.go.
pub mod Recycled
use argus.Prelude.{
  ℕ, zero, suc, ◌+◌, Bool, false, ◌&&◌, ◌||◌, not, Option, none, some, List, [], ◌∷◌, ◌++◌, ltb,
  ◌==◌, if◌then◌else◌, length,
}
use argus.Text.{Text, codes, text_eq, fields}
use argus.Dict.{insert, delete}
use argus.Status.Gravity.{grav_up}
use argus.Monel.State.{Ptr, nil, World, modify}
use argus.Monel.Children.{find, add_child}
use argus.Monel.Stats.{stats_init}

unfoldable pub last_index : List Ptr → Ptr → ℕ → Option ℕ → Option ℕ
last_index [] x i idx = idx
last_index (l ∷ list) x i idx = last_index list x (i + 1) (if l == x then some i else idx)

unfoldable pub remove_at : List Ptr → ℕ → List Ptr
remove_at [] i = []
remove_at (l ∷ list) zero = list
remove_at (l ∷ list) (suc i) = l ∷ remove_at list i

-- removeFromList: the last place of `x` is taken out.
unfoldable pub remove_from_list : List Ptr → Ptr → List Ptr
unfolding last_index remove_at
remove_from_list list x = elim (last_index list x 0 none) [
  | none ↦ list
  | some i ↦ remove_at list i
]

-- RemoveNotify: the first place of the notification is taken out.
unfoldable pub remove_first : Ptr → List Ptr → List Ptr
remove_first n [] = []
remove_first n (l ∷ list) = let rest = remove_first n list in if l == n then list else l ∷ rest

unfoldable pub remove_notify : Ptr → Ptr → World → World
unfolding remove_first
remove_notify m n w = modify m (λ x. record x { notifies = remove_first n x.notifies }) w

-- cleanName, on bytes
unfoldable pub clean_name : Text → Text
clean_name [] = []
clean_name (c ∷ cs) =
    let rest = clean_name cs in
    if ltb c 32 then rest else if c == b' ' then b'_' ∷ rest else c ∷ rest

abbrev pub or_default : Text → Text → Text
or_default cf def = if text_eq cf [] then def else cf

unfoldable pub parent_prefix : List Ptr → World → Text
parent_prefix [] w = []
parent_prefix (q ∷ qs) w = (w.elem q).cf.unique ++ codes ":"

-- whoami; the names of files are not kept
unfoldable pub whoami : Ptr → World → World
unfolding parent_prefix
whoami m w =
    let x = w.elem m in
    if not (text_eq x.cf.unique [])
    then w
    else (let label =
          if text_eq x.cf.label [] && not (text_eq x.cf.uname []) then x.cf.uname else x.cf.label in
        let uname = or_default x.cf.uname x.uname in
        let cf = record (x.cf) {
          uname = uname;
          unique = parent_prefix x.parent w ++ clean_name uname;
          label = or_default label x.label;
          friendlyname = or_default x.cf.friendlyname x.friendlyname;
        } in
        modify m (λ y. record y { cf = cf }) w)

unfoldable pub adopt : List Ptr → Ptr → World → World
adopt [] m w = w
adopt (q ∷ qs) m w = add_child q m w

-- M.Init; the inits of service, group and alias keep their own state
unfoldable pub init : Ptr → World → World
unfolding adopt
init m w =
    let p = (w.elem m).p in
    let (stats, rolled) = stats_init w.env.clock p.status p.stats in
    let w1 =
      modify m
        (λ x. record x {
          p = record (x.p) { stats = stats };
          web_time = if rolled then w.env.clock.nano else x.web_time;
        })
        w in
    let w2 = adopt (w1.elem m).parent m w1 in
    record w2 { byname = insert (w2.elem m).cf.unique m w2.byname }

unfoldable pub first_interesting : List Ptr → World → Bool
first_interesting [] w = false
first_interesting (q ∷ qs) w = (w.elem q).interesting

-- determineInteresting
unfoldable pub determine_interesting : Ptr → World → World
unfolding first_interesting
determine_interesting m w =
    let x = w.elem m in
    if first_interesting x.parent w
    then w
    else modify m
        (λ y. record y {
          interesting =
              (y.cf.countstop || y.cf.gravity == grav_up || length y.children == 0)
              && not y.cf.passive
              && not y.cf.hidden;
        })
        w

-- The loop of resolveDepends; an error is only reported
unfoldable pub resolve_each : Text → List Text → World → List Text
resolve_each unique [] w = []
resolve_each unique (name ∷ rest) w =
    let later = resolve_each unique rest w in
    if text_eq name unique
    then later
    else elim (find name w) [ none ↦ later | some o ↦ name ∷ later ]

-- resolveDepends
unfoldable pub resolve_depends : Ptr → World → World
unfolding resolve_each
resolve_depends m w =
    let cf = (w.elem m).cf in
    modify m (λ x. record x { depends = x.depends ++ resolve_each cf.unique (fields cf.depends) w })
      w

unfoldable pub forget_parent : Ptr → List Ptr → World → World
unfolding remove_from_list
forget_parent m [] w = w
forget_parent m (c ∷ cs) w =
    forget_parent m cs (modify c (λ x. record x { parent = remove_from_list x.parent m }) w)

-- What removeFromList leaves in the array that it was given: the later pointers move down, and the
-- last place is nil.
unfoldable pub left_behind : List Ptr → Ptr → List Ptr
unfolding last_index remove_at
left_behind list x = elim (last_index list x 0 none) [
  | none ↦ list
  | some i ↦ remove_at list i ++ nil ∷ []
]

-- The loop over the parents assigns the shortened list of children to the parent's own `Parent`,
-- as the source does; `Children` still is the array that was changed.
unfoldable pub forget_child : Ptr → List Ptr → World → World
unfolding remove_from_list left_behind
forget_child m [] w = w
forget_child m (c ∷ cs) w = forget_child m cs (
    modify c
      (λ x. record x {
        parent = remove_from_list x.children m;
        children = left_behind x.children m;
      })
      w)

-- Recycle without cascade; Persist writes a file, and Me.Recycle the monitor's own state
unfoldable pub recycle : Ptr → World → World
unfolding forget_parent forget_child
recycle m w =
    let unique = (w.elem m).cf.unique in
    let w1 = record w {
      byname = delete unique w.byname;
      isdown = delete unique w.isdown;
      inoverride = delete unique w.inoverride;
    } in
    let w2 = forget_parent m (w1.elem m).children w1 in
    let w3 = forget_child m (w2.elem m).parent w2 in
    modify m (λ x. record x { children = []; parent = [] }) w3
