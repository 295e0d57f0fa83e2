-- ===== src/Elevator/Enqueue.antt =====
-- `Enqueue` keeps the bytes, by a merge or by a new request.
use lustre_simulator.Base.{
  ℕ, ◌+◌, ◌^◌, ◌<◌, ◌≡◌, ◌≢◌, sym, ap, ◌∙◌, ◌⊎◌, inl, inr, refl, Bool, true, false, ◌&&◌, ◌||◌, not,
  Option, none, some, List, [], ◌∷◌, ◌++◌, ltb, ◌==◌, if◌then◌else◌, Bool-cases, Option-cases,
  arith,
}
use lustre_simulator.Base.Run.{Ends, ends, Ends-bind, Ends-map}
use lustre_simulator.Base.Words.{u64}
use lustre_simulator.Elevator.{
  no_ioreq, Command, same_command, Ioreq, Request, Elevator, Told, is_empty, Merging, no_merge,
  front_merge, back_merge, on_hash, is_last, find_key, elv_rqhash_find, elv_rqhash_add, ll_merge_fn,
  elv_merge_ok, merge_with_last, merge_with_hashed, elv_merge, add_request, enqueue,
}
use lustre_simulator.Elevator.Bytes.{bytes, queued_bytes, bytes-append, bytes_outside}
use lustre_simulator.Elevator.{merge_or_add}
use lustre_simulator.Elevator.Lists.{
  IsElevator, IsFilled, append_other, append-IsDistinct, append_member, append_new, newest_member,
}
use lustre_simulator.Elevator.Tally.{unit_of, tally, tally-append, tally_outside}
use lustre_simulator.Elevator.Merge.{IsLeft, IsTaken, merge_into_lem}

find_key_member :
    (requests : ℕ → Request) (off r : ℕ) (xs : List ℕ)
    → find_key requests off xs ≡ some r
    → on_hash r xs ≡ true
find_key_member requests off r [] e = absurd cc
find_key_member requests off r (x ∷ xs) e = ground (arith, find_key_member requests off r xs)

-- A request that is to take the I/O request is in the policy's list.
abbrev IsMember : Elevator → Merging × ℕ → Type 0
IsMember s (no_merge, r) = Unit {0}
IsMember s (way, r) = on_hash r s.queue ≡ true

merge_with_hashed-IsMember :
    (io : Ioreq) (s : Elevator) → IsElevator s → IsMember s (merge_with_hashed io s)
unfolding merge_with_hashed elv_rqhash_find
merge_with_hashed-IsMember io s v = elim (Option-cases (find_key s.requests io.off s.hash)) [
  | inl nothing ↦ rw (nothing, merge_with_hashed, elv_rqhash_find) tt
  | inr (r, found) ↦
      let here = v.hashed r (find_key_member s.requests io.off r s.hash found) in
      elim (Bool-cases (elv_merge_ok (s.requests r) io)) [
        | inl same ↦ rw (found, merge_with_hashed, elv_rqhash_find, same) here
        | inr other ↦ rw (found, merge_with_hashed, elv_rqhash_find, other) tt
      ]
]

chosen-IsMember :
    (s : Elevator) (l : ℕ) (way : Merging) (hashed : Merging × ℕ)
    → on_hash l s.queue ≡ true
    → IsMember s hashed
    → IsMember s (elim way [ no_merge ↦ hashed | way' ↦ (way', l) ])
chosen-IsMember s l no_merge hashed here member = member
chosen-IsMember s l front_merge hashed here member = here
chosen-IsMember s l back_merge hashed here member = here

last_or_hashed-IsMember :
    (io : Ioreq) (s : Elevator) (last : Option ℕ)
    → IsElevator s
    → ((l : ℕ) → last ≡ some l → on_hash l s.queue ≡ true)
    → IsMember s (elim last [
      | none ↦ merge_with_hashed io s
      | some l ↦ elim (merge_with_last (s.requests l) io) [
        | no_merge ↦ merge_with_hashed io s
        | way ↦ (way, l)
      ]
    ])
last_or_hashed-IsMember io s none v here = merge_with_hashed-IsMember io s v
last_or_hashed-IsMember io s (some l) v here =
    chosen-IsMember s l (merge_with_last (s.requests l) io) (merge_with_hashed io s) (here l refl)
      (merge_with_hashed-IsMember io s v)

elv_merge-IsMember : (io : Ioreq) (s : Elevator) → IsElevator s → IsMember s (elv_merge io s)
unfolding elv_merge
elv_merge-IsMember io s v = last_or_hashed-IsMember io s s.last v v.last

-- What the disk is told: to plug just where there was no request, and to unplug only where it is
-- plugged then; a request has been merged or added, and only the one at `r` may be of another kind,
-- or new to the policy's list.
pub record IsTold (s : Elevator) (r : ℕ) (plugged : Bool) (t : Told) : Type 0 where
  pub left : IsLeft s t.elevator
  pub kinds : (x : ℕ) → x ≢ r → (t.elevator.requests x).cmd ≡ (s.requests x).cmd
  pub fewer : (x : ℕ) → x ≢ r → on_hash x t.elevator.queue ≡ true → on_hash x s.queue ≡ true
  pub plugs : t.plugs ≡ is_empty s
  pub unplugs : t.unplugs ≡ true → (plugged || t.plugs) ≡ true

and_first : (a b : Bool) → (a && b) ≡ true → a ≡ true
and_first true b e = refl
and_first false b e = cc

pub not_empty : (s : Elevator) (r : ℕ) → on_hash r s.queue ≡ true → is_empty s ≡ false
not_empty s r here = by_lists s.dispatch s.queue here
  where
    by_lists :
        (dispatch queue : List ℕ)
        → on_hash r queue ≡ true
        → (elim dispatch [ [] ↦ elim queue [ [] ↦ true | _ ↦ false ] | _ ↦ false ]) ≡ false
    by_lists [] [] here = cc
    by_lists [] (x ∷ xs) here = refl
    by_lists (x ∷ xs) queue here = refl

own_request :
    (r : ℕ) (q : Request) (requests : ℕ → Request) → (if r == r then q else requests r) ≡ q
own_request r q requests = ground arith

added_lem :
    (b : Bool) (count before after : ℕ)
    → after ≡ before + ((if b then 1 else 0) + 0)
    → (if b then count + 1 else count) + before ≡ count + after
added_lem true count before after e = omega arith
added_lem false count before after e = omega arith

module _ (r : ℕ) (q : Request) (plugged : Bool) (s : Elevator) where
  -- A new request, at an address that no list has, adds its bytes.
  add_request_lem :
      IsElevator s
      → no_ioreq q.batch ≡ false
      → on_hash r s.queue ≡ false
      → on_hash r s.hash ≡ false
      → Ends
          (λ t.
            (queued_bytes t.elevator ≡ queued_bytes s + q.count)
            × IsElevator t.elevator
            × IsTold s r plugged t)
          (add_request r q plugged s)
  unfolding add_request elv_rqhash_add
  add_request_lem v held new unhashed =
      let free : not (on_hash r s.hash) ≡ true = rw unhashed refl in
      let after : ℕ → Request = λ i. if i == r then q else s.requests i in
      let same = bytes_outside s.requests r q s.queue new in
      let more = bytes-append after s.queue r in
      let own : (after r).count ≡ q.count = ground arith in
      rw free (
        ends (
          (let kept : bytes after (s.queue ++ r ∷ []) ≡ queued_bytes s + q.count = omega arith in
              kept),
          record {
            distinct = append-IsDistinct r s.queue v.distinct new;
            last = first_member s.last v.last;
            hashed = hashed_member;
            filled = filled_member held;
          },
          record {
            left = (refl, first_is s.last, λ h c. added c);
            kinds = other;
            fewer = λ x differs here. append_other x r s.queue (unequal_to x differs) here;
            plugs = refl;
            unplugs = λ e. and_first _ _ e;
          },
        ))
    where
      added :
          (c : Command)
          → (if same_command q.cmd c then s.counts c + 1 else s.counts c)
              + tally c s.requests s.queue
            ≡ s.counts c + tally c (λ i. if i == r then q else s.requests i) (s.queue ++ r ∷ [])
      added c =
          let after : ℕ → Request = λ i. if i == r then q else s.requests i in
          added_lem (same_command q.cmd c) (s.counts c) (tally c s.requests s.queue) _ (
            tally-append c after s.queue (r ∷ [])
            ∙ ap (λ n. n + (unit_of c (after r) + 0)) (tally_outside c s.requests r q s.queue new)
            ∙ ap (λ x. tally c s.requests s.queue + (unit_of c x + 0)) (own_request r q s.requests))

      unequal_to : (x : ℕ) → x ≢ r → (r == x) ≡ false
      unequal_to x differs = elim (Bool-cases (r == x)) [
        | inl at ↦ absurd (differs (ground arith))
        | inr unequal ↦ unequal
      ]

      filled_member :
          no_ioreq q.batch ≡ false
          → IsFilled (λ i. if i == r then q else s.requests i) (s.queue ++ r ∷ [])
      filled_member held x here = elim (Bool-cases (x == r)) [
        | inl at ↦ rw at held
        | inr unequal ↦ rw unequal (v.filled x (append_other x r s.queue (ground arith) here))
      ]

      other : (x : ℕ) → x ≢ r → (if x == r then q else s.requests x).cmd ≡ (s.requests x).cmd
      other x differs = elim (Bool-cases (x == r)) [
        | inl at ↦ absurd (differs (ground arith))
        | inr apart ↦ rw apart refl
      ]

      first_is :
          (last : Option ℕ) → (l : ℕ) × ((elim last [ none ↦ some r | some m ↦ some m ]) ≡ some l)
      first_is none = (r, refl)
      first_is (some m) = (m, refl)

      first_member :
          (last : Option ℕ)
          → ((l : ℕ) → last ≡ some l → on_hash l s.queue ≡ true)
          → (l : ℕ) → (elim last [ none ↦ some r | some m ↦ some m ]) ≡ some l
          → on_hash l (s.queue ++ r ∷ []) ≡ true
      first_member none here l e = newest_member r l (s.queue ++ r ∷ []) e (append_new r s.queue)
      first_member (some m) here l e = append_member l r s.queue (here l e)

      hashed_member : (x : ℕ) → on_hash x (r ∷ s.hash) ≡ true → on_hash x (s.queue ++ r ∷ []) ≡ true
      hashed_member x here = elim (Bool-cases (r == x)) [
        | inl same ↦
            let at : r ≡ x = ground arith in
            ap (λ (i : ℕ). on_hash i (s.queue ++ r ∷ [])) (sym at) ∙ append_new r s.queue
        | inr other ↦ append_member x r s.queue (v.hashed x (ground arith))
      ]

module _ (e : ℕ) (io : Ioreq) (r : ℕ) (plugged : Bool) (s : Elevator) (v : IsElevator s)
    (new : on_hash r s.queue ≡ false) (unhashed : on_hash r s.hash ≡ false)
    (small : queued_bytes s + io.count < 2 ^ 64) where
  -- The request has room, or it does not and may be forgotten as the one merged last.
  ll_merge_fn_lem :
      (into : ℕ)
      → ((ll_merge_fn into io s) ≡ (true, s))
        ⊎ ((l : Option ℕ) × ((ll_merge_fn into io s) ≡ (false, record s { last = l }))
            × IsElevator (record s { last = l }))
  unfolding ll_merge_fn
  ll_merge_fn_lem into =
      elim (Bool-cases (ltb s.maxsize (u64 ((s.requests into).count + io.count)))) [
        | inr fits ↦ inl (rw fits refl)
        | inl full ↦ elim (Bool-cases (is_last into s)) [
          | inl yes_last ↦ inr (
            none,
            rw (full, yes_last) refl,
            record {
              distinct = v.distinct;
              last = λ l e. absurd cc;
              hashed = v.hashed;
              filled = v.filled;
            },
          )
          | inr other ↦ inr (s.last, rw (full, other) refl, v)
        ]
      ]

  merged-IsTold :
      (s' : Elevator)
      → IsTaken s s'
      → is_empty s ≡ false
      → IsTold s r plugged (record { elevator = s'; plugs = false; unplugs = false })
  merged-IsTold s' (left, kinds, fewer) busy = record {
    left = left;
    kinds = λ x _. kinds x;
    fewer = λ x _. fewer x;
    plugs = sym busy;
    unplugs = λ e. absurd cc;
  }

  forgotten-IsTold :
      (l : Option ℕ) (t : Told) → IsTold (record s { last = l }) r plugged t → IsTold s r plugged t
  forgotten-IsTold l t told = record {
    left = told.left;
    kinds = told.kinds;
    fewer = told.fewer;
    plugs = told.plugs;
    unplugs = told.unplugs;
  }

  merge_or_add_lem :
      (way : Merging) (into : ℕ)
      → IsMember s (way, into)
      → Ends
          (λ t.
            (queued_bytes t.elevator ≡ queued_bytes s + io.count)
            × IsElevator t.elevator
            × IsTold s r plugged t)
          (merge_or_add way e io into r plugged s)
  unfolding merge_or_add
  merge_or_add_lem no_merge into member = add_request_lem r _ plugged s v refl new unhashed
  merge_or_add_lem front_merge into member = elim (ll_merge_fn_lem into) [
    | inl fits ↦ rw fits (
        Ends-bind (merge_into_lem e io into s v member small front_merge) λ s' (more, kept, taken).
          ends (more, kept, merged-IsTold s' taken (not_empty s into member)))
    | inr (l, full, kept) ↦ rw full (
        Ends-map (add_request_lem r _ plugged (record s { last = l }) kept refl new unhashed)
          λ t (more, kept', told). (more, kept', forgotten-IsTold l t told))
  ]
  merge_or_add_lem back_merge into member = elim (ll_merge_fn_lem into) [
    | inl fits ↦ rw fits (
        Ends-bind (merge_into_lem e io into s v member small back_merge) λ s' (more, kept, taken).
          ends (more, kept, merged-IsTold s' taken (not_empty s into member)))
    | inr (l, full, kept) ↦ rw full (
        Ends-map (add_request_lem r _ plugged (record s { last = l }) kept refl new unhashed)
          λ t (more, kept', told). (more, kept', forgotten-IsTold l t told))
  ]

  -- An I/O request given to an elevator whose lists are in order adds its bytes and no others, whether
  -- it is merged or becomes a request of its own, at an address that no list has; no assertion fails,
  -- and the lists are in order again, the elevator's own as it was. The disk is told to plug just
  -- where there was no request, and to unplug only where it is plugged then. Where the counts cover
  -- the requests of the policy's list they change as it does, and no request but the new one is of
  -- another kind or comes into the list.
  pub enqueue_lem :
      Ends
        (λ t.
          (queued_bytes t.elevator ≡ queued_bytes s + io.count)
          × IsElevator t.elevator
          × IsTold s r plugged t)
        (enqueue e io r plugged s)
  unfolding enqueue
  enqueue_lem = merge_or_add_lem (elv_merge io s).0 (elv_merge io s).1 (elv_merge-IsMember io s v)
