-- ===== src/Membership/Volumes.antt =====
-- The volumes of the nodes that left: marked when the node leaves, unmarked when one comes with
-- them, and handed out once their downtime is over.
use rebost.Prelude.{
  String, ◌==◌, ◌≡◌, ◌≢◌, refl, ◌∙◌, Bool, true, false, not, Option, none, some, contains,
  if◌then◌else◌, eq_refl, ◌⊎◌, inl, inr, Bool-cases, ltb_ℤ, ◌+ℤ◌, ◌&&◌,
}
use rebost.Exec.{Result, ok, err, panic}
use rebost.Exec.Keeps.{Keeps-if}
use rebost.Platform.{Time, add}
use rebost.Assoc.{
  look, meets, IsMap, look-cut, look-set, look-cut_all, look-set_all, filter_absent, filter_present,
  look-filter, set_all-IsMap, filter-IsMap,
}
use rebost.Membership.{
  Metadata, Node, Membership, is_over, fresh_node, connected, unmarshalled, notify_join, volumes_of,
  notify_leave, removed_volumes,
}

unmarked :
    {A : Type 0} (b : Bool) (o : Option A) → (b ≡ false → o ≡ none) → (if b then none else o) ≡ none
unmarked true o h = refl
unmarked false o h = h refl

negated :
    {A : Type 0} (f : A → Bool) (o : Option A)
    → (if meets (λ x. not (f x)) o then o else none) ≡ (if meets f o then none else o)
negated f none = refl
negated f (some x) = elim (Bool-cases (f x)) [ inl e ↦ rw e refl | inr e ↦ rw e refl ]

module _ {C : Type 0} where
  -- No volume that is marked as removed is one of a node that is there.
  pub record IsApart (m : Membership C) : Type 0 where
    pub at :
        (name vid : String)
        → contains (volumes_of (look m.nodes name)) vid ≡ true
        → look m.removed_volume_ids vid ≡ none

  chosen :
      (b : Bool) (n : Node C) (o : Option (Node C)) (vid : String)
      → contains (volumes_of (if b then some n else o)) vid ≡ true
      → (contains n.meta.volumes vid ≡ true) ⊎ (contains (volumes_of o) vid ≡ true)
  chosen true n o vid e = inl e
  chosen false n o vid e = inr e

  gone :
      (b : Bool) (o : Option (Node C)) (vid : String)
      → b ≡ true
      → contains (volumes_of (if b then none else o)) vid ≢ true
  unfolding contains
  gone true o vid e h = cc h
  gone false o vid e h = cc e

  kept :
      (b : Bool) (o : Option (Node C)) (vid : String)
      → contains (volumes_of (if b then none else o)) vid ≡ true
      → contains (volumes_of o) vid ≡ true
  unfolding contains
  kept true o vid h = cc h
  kept false o vid h = h

  pub connected-IsApart :
      (name : String) (meta : Metadata) (r : Result C) (m : Membership C)
      → IsApart m
      → IsApart (connected name meta r m).1
  unfolding connected
  connected-IsApart name meta (ok c) m h = record {
    at = λ other vid e.
        let held =
          chosen (name == other) (fresh_node c meta) (look m.nodes other) vid
            (rw (← look-set m.nodes name (fresh_node c meta) other) e) in
        look-cut_all m.removed_volume_ids meta.volumes vid
        ∙ unmarked (contains meta.volumes vid) (look m.removed_volume_ids vid)
            (λ n. elim held [ inl y ↦ absurd (cc (n, y)) | inr y ↦ h.at other vid y ]);
  }
  connected-IsApart name meta (err e) m h = h
  connected-IsApart name meta panic m h = h

  unmarshalled-IsApart :
      (name : String) (meta : Result Metadata) (dial : Metadata → Result C) (m : Membership C)
      → IsApart m
      → IsApart (unmarshalled name dial meta m).1
  unfolding unmarshalled
  unmarshalled-IsApart name (ok d) dial m h = connected-IsApart name d (dial d) m h
  unmarshalled-IsApart name (err e) dial m h = h
  unmarshalled-IsApart name panic dial m h = h

  -- A node that joins, or sends new metadata, takes its volumes off the marked ones: where no volume
  -- of a node that is there was marked, none is afterwards, also where the notification panics.
  pub notify_join-IsApart :
      (name : String) (meta : Result Metadata) (dial : Metadata → Result C) (m : Membership C)
      → IsApart m
      → IsApart (notify_join name meta dial m).1
  unfolding notify_join
  notify_join-IsApart name meta dial m h =
      (Keeps-if m.is_initialized (record { at = λ m'. unmarshalled-IsApart name meta dial m' })
          (record { at = λ m' h'. h' })).at
        m h

  -- A node that leaves has its volumes marked and is gone: where no volume of a node that is there
  -- was marked, none is afterwards, if no other node has a volume of the one that leaves.
  pub notify_leave-IsApart :
      (now : Time) (name : String) (m : Membership C)
      → ((other vid : String)
          → other ≢ name
          → contains (volumes_of (look m.nodes other)) vid ≡ true
          → contains (volumes_of (look m.nodes name)) vid ≡ false)
      → IsApart m
      → IsApart (notify_leave now name m)
  unfolding notify_leave
  notify_leave-IsApart now name m alone h = record {
    at = λ other vid e.
        let left : contains (volumes_of (if name == other then none else look m.nodes other)) vid
            ≡ true =
          rw (← look-cut m.nodes name other) e in
        let apart : other ≢ name =
          λ q. gone (name == other) (look m.nodes other) vid (rw q (eq_refl name)) left in
        let held : contains (volumes_of (look m.nodes other)) vid ≡ true =
          kept (name == other) (look m.nodes other) vid left in
        look-set_all m.removed_volume_ids (volumes_of (look m.nodes name)) now vid
        ∙ rw (alone other vid apart held) (h.at other vid held);
  }

  removed_volumes_lem :
      (now : Time) (m : Membership C) (vid : String)
      → IsMap m.removed_volume_ids
      → let due = meets (is_over m.volume_downtime now vid) (look m.removed_volume_ids vid) in
        (contains (removed_volumes now m).0 vid ≡ due)
        × (look (removed_volumes now m).1.removed_volume_ids vid
            ≡ (if due then none else look m.removed_volume_ids vid))
  unfolding removed_volumes
  removed_volumes_lem now m vid d = (
    filter_present _ m.removed_volume_ids vid d,
    look-filter _ m.removed_volume_ids vid d ∙ negated _ (look m.removed_volume_ids vid),
  )

  marked_at :
      (left : Time) (name : String) (m : Membership C) (vid : String)
      → contains (volumes_of (look m.nodes name)) vid ≡ true
      → look (notify_leave left name m).removed_volume_ids vid ≡ some left
  unfolding notify_leave
  marked_at left name m vid held =
      look-set_all m.removed_volume_ids (volumes_of (look m.nodes name)) left vid ∙ rw held refl

  notify_leave-IsMap :
      (left : Time) (name : String) (m : Membership C)
      → IsMap m.removed_volume_ids
      → IsMap (notify_leave left name m).removed_volume_ids
  unfolding notify_leave
  notify_leave-IsMap left name m d =
      set_all-IsMap m.removed_volume_ids (volumes_of (look m.nodes name)) left d

  removed_volumes-IsMap :
      (now : Time) (m : Membership C)
      → IsMap m.removed_volume_ids
      → IsMap (removed_volumes now m).1.removed_volume_ids
  unfolding removed_volumes
  removed_volumes-IsMap now m d = filter-IsMap _ m.removed_volume_ids d

  over_at :
      (left now : Time) (name : String) (m : Membership C) (vid : String)
      → is_over (notify_leave left name m).volume_downtime now vid left
        ≡ ltb_ℤ (left.instant +ℤ m.volume_downtime) now.instant
  unfolding notify_leave add
  over_at left now name m vid = refl

  again :
      (left now later : Time) (name : String) (m : Membership C) (vid : String)
      → meets
          (is_over (removed_volumes now (notify_leave left name m)).1.volume_downtime later vid)
          (if is_over (notify_leave left name m).volume_downtime now vid left
            then none
            else some left)
        ≡ (not (ltb_ℤ (left.instant +ℤ m.volume_downtime) now.instant)
            && ltb_ℤ (left.instant +ℤ m.volume_downtime) later.instant)
  unfolding notify_leave removed_volumes add
  again left now later name m vid =
      elim (Bool-cases (ltb_ℤ (left.instant +ℤ m.volume_downtime) now.instant)) [
        | inl e ↦ rw e refl
        | inr e ↦ rw e refl
      ]

  -- A volume of a node that left is handed out by the first call that comes later than the downtime
  -- after the node left, and only by that one: of two calls, the first one has it where its time is
  -- past the time of the leaving and the downtime, and the second one where its own time is and that
  -- of the first one was not. No volume is marked twice before the node leaves.
  pub removed_volumes-notify_leave :
      (left now later : Time) (name : String) (m : Membership C) (vid : String)
      → IsMap m.removed_volume_ids
      → contains (volumes_of (look m.nodes name)) vid ≡ true
      → let due = λ (t : Time). ltb_ℤ (left.instant +ℤ m.volume_downtime) t.instant in
        let first = removed_volumes now (notify_leave left name m) in
        (contains first.0 vid ≡ due now)
        × (contains (removed_volumes later first.1).0 vid ≡ (not (due now) && due later))
  removed_volumes-notify_leave left now later name m vid d held =
      let m1 = notify_leave left name m in
      let there : look m1.removed_volume_ids vid ≡ some left = marked_at left name m vid held in
      let once = notify_leave-IsMap left name m d in
      let first = removed_volumes_lem now m1 vid once in
      let second =
        removed_volumes_lem later (removed_volumes now m1).1 vid
          (removed_volumes-IsMap now m1 once) in
      (
        first.0 ∙ rw there (over_at left now name m vid),
        second.0 ∙ rw first.1 (rw there (again left now later name m vid)),
      )

  -- A volume of a node that left is not handed out once a node came with it, however late that was,
  -- and whatever the two notifications return.
  pub removed_volumes-rejoined :
      (left later : Time) (name again : String) (meta : Metadata) (c : C) (m : Membership C)
      (vid : String)
      → m.is_initialized ≡ true
      → contains meta.volumes vid ≡ true
      → contains
          (removed_volumes later
            (notify_join again (ok meta) (λ _. ok c) (notify_leave left name m)).1).0
          vid
        ≡ false
  unfolding removed_volumes notify_join unmarshalled connected notify_leave
  removed_volumes-rejoined left later name again meta c m vid i e =
      rw i (filter_absent _ _ vid (look-cut_all _ meta.volumes vid ∙ rw e refl))
