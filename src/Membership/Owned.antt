-- ===== src/Membership/Owned.antt =====
-- Which node has which volume.
use rebost.Prelude.{
  String, ◌==◌, ◌≡◌, ◌≢◌, refl, ◌∙◌, ap, arith, eq_iff, Bool, true, false, Option, none, some,
  contains, if◌then◌else◌, List,
}
use rebost.Assoc.{Assoc, look, cut, set, look-cut, look-set}
use rebost.Membership.{Node, volumes_of}

module _ {C : Type 0} where
  -- The node of this name has this volume.
  unfoldable pub holds : Assoc (Node C) → String → String → Bool
  holds nodes name vid = contains (volumes_of (look nodes name)) vid

  -- No other node has one of these volumes.
  abbrev pub AreNew : Assoc (Node C) → String → List String → Type 0
  AreNew nodes name vids =
      (other vid : String) → other ≢ name → holds nodes other vid ≡ true → contains vids vid ≡ false

  -- No two nodes have the same volume.
  abbrev pub IsOwned : Assoc (Node C) → Type 0
  IsOwned nodes =
      (name other vid : String)
      → other ≢ name
      → holds nodes other vid ≡ true
      → holds nodes name vid ≡ false

  holds_chosen :
      (b : Bool) (n : Node C) (o : Option (Node C)) (vid : String)
      → contains (volumes_of (if b then some n else o)) vid
        ≡ (if b then contains n.meta.volumes vid else contains (volumes_of o) vid)
  holds_chosen true n o vid = refl
  holds_chosen false n o vid = refl

  holds_left :
      (b : Bool) (o : Option (Node C)) (vid : String)
      → contains (volumes_of (if b then none else o)) vid
        ≡ (if b then false else contains (volumes_of o) vid)
  unfolding contains
  holds_left true o vid = refl
  holds_left false o vid = refl

  pub holds-set :
      (nodes : Assoc (Node C)) (name : String) (n : Node C) (other vid : String)
      → holds (set nodes name n) other vid
        ≡ (if name == other then contains n.meta.volumes vid else holds nodes other vid)
  unfolding holds
  holds-set nodes name n other vid =
      ap (λ o. contains (volumes_of o) vid) (look-set nodes name n other)
      ∙ holds_chosen (name == other) n (look nodes other) vid

  holds-cut :
      (nodes : Assoc (Node C)) (name other vid : String)
      → holds (cut nodes name) other vid ≡ (if name == other then false else holds nodes other vid)
  unfolding holds
  holds-cut nodes name other vid =
      ap (λ o. contains (volumes_of o) vid) (look-cut nodes name other)
      ∙ holds_left (name == other) (look nodes other) vid

  pub set-IsOwned :
      (nodes : Assoc (Node C)) (name : String) (n : Node C)
      → IsOwned nodes
      → AreNew nodes name n.meta.volumes
      → IsOwned (set nodes name n)
  set-IsOwned nodes name n h new a b vid ne e = ground (
    arith,
    holds-set nodes name n a vid,
    holds-set nodes name n b vid,
    eq_iff name a,
    eq_iff name b,
    h a b vid,
    new a vid,
    new b vid,
  )

  pub cut-IsOwned :
      (nodes : Assoc (Node C)) (name : String) → IsOwned nodes → IsOwned (cut nodes name)
  cut-IsOwned nodes name h a b vid ne e =
      ground (arith, holds-cut nodes name a vid, holds-cut nodes name b vid, h a b vid)

  pub known :
      (nodes : Assoc (Node C)) (name : String) (n : Node C) (vid : String)
      → look nodes name ≡ some n
      → holds nodes name vid ≡ contains n.meta.volumes vid
  unfolding holds
  known nodes name n vid e = rw e refl
