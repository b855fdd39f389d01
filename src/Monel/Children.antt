-- ===== src/Monel/Children.antt =====
-- Finding elements, and the children that the interface Moneler reports: Find of
-- argus/monel/monel.go, argus/alias/alias.go, argus/group/group.go.
use argus.Prelude.{Option, none, some, List, [], ◌∷◌, ◌++◌}
use argus.Text.{Text}
use argus.Dict.{lookup}
use argus.Monel.State.{Ptr, Me, World, modify, service, group, alias}

-- Find
abbrev pub find : Text → World → Option Ptr
find name w = lookup name w.byname

-- AddParent
unfoldable pub add_parent : Ptr → Ptr → World → World
add_parent m n w = modify m (λ x. record x { parent = x.parent ++ n ∷ [] }) w

-- AddChild
unfoldable pub add_child : Ptr → Ptr → World → World
add_child m n w = modify m (λ x. record x { children = x.children ++ n ∷ [] }) w

unfoldable pub resolved : Ptr → Text → Option Ptr → World → Option Ptr × World
resolved a target none w = (none, w)
resolved a target (some t) w =
    (some t, modify a (λ x. record x { me = alias target (some t) }) (add_parent t a w))

-- aliasLookup. An alias that cannot be resolved leaves an error with its configuration, which is
-- not modelled.
unfoldable pub alias_lookup : Ptr → Text → Option Ptr → World → Option Ptr × World
unfolding resolved add_parent
alias_lookup a target (some t) w = (some t, w)
alias_lookup a target none w = resolved a target (find target w) w

abbrev pub alias_children : Option Ptr → World → List Ptr
alias_children none w = []
alias_children (some t) w = elim ((w.elem t).children) [ [] ↦ t ∷ [] | c ∷ cs ↦ c ∷ cs ]

unfoldable pub children_of : Me → Ptr → World → List Ptr × World
unfolding alias_lookup
children_of service m w = ([], w)
children_of group m w = ((w.elem m).children, w)
children_of (alias target object) m w =
    let (o, w') = alias_lookup m target object w in (alias_children o w', w')

-- m.Me.Children()
unfoldable pub me_children : Ptr → World → List Ptr × World
unfolding children_of
me_children m w = children_of (w.elem m).me m w
