-- ===== src/Elevator/Merge.antt =====
-- Merging loses no byte of a request and counts none twice.
use mathlib.Core.Path.{subst}
use lustre_simulator.Base.{
  ℕ, ◌+◌, ◌^◌, ◌<◌, ◌≡◌, ◌≢◌, inl, inr, refl, sym, ap, ◌∙◌, Bool, true, false, some, ◌&&◌, not,
  ◌++◌, leb, ◌==◌, if◌then◌else◌, Option-cases, arith,
}
use lustre_simulator.Base.Run.{Run, ok, ◌>>=◌, Ends, ends, Ends-if, Ends-bind, Ends-map}
use lustre_simulator.Base.Words.{u64, u64_id}
use lustre_simulator.Elevator.{
  Command, no_ioreq, splice_ioreq, lower_count, Ioreq, Request, Elevator, Merging, no_merge,
  front_merge, back_merge, set_request, without, on_hash, latter, former, same_command, extended,
  elv_rqhash_del, elv_rqhash_add, elv_rqhash_reposition, elv_merge_requests, attempt_merge,
  attempt_back_merge, attempt_front_merge, elv_merged_request, merge_into,
}
use lustre_simulator.Elevator.Lists.{
  IsElevator, newest_member, without-IsDistinct, without_member, set-IsFilled, no_ioreq-append,
  no_ioreq-last, reposition_member, merged_member,
}
use lustre_simulator.Elevator.Tally.{
  unit_of, tally, HasCounts, IsTallied, SameKinds, set-cmd, tally_kinds, tally-without,
  lower_count_lem,
}
use lustre_simulator.Elevator.Bytes.{
  bytes, queued_bytes, bytes_inside, bytes-without, bytes_member, on_hash-without,
  on_hash-without-other, latter_lem, former_lem,
}

-- A request has been merged last or added, the elevator's own list is as before, and the counts have
-- changed as the policy's list has.
abbrev pub IsLeft : Elevator → Elevator → Type 0
IsLeft s s' = (s'.dispatch ≡ s.dispatch) × ((l : ℕ) × (s'.last ≡ some l)) × IsTallied s s'

-- The policy's list has no other requests than before.
abbrev pub IsFewer : Elevator → Elevator → Type 0
IsFewer s s' = (x : ℕ) → on_hash x s'.queue ≡ true → on_hash x s.queue ≡ true

-- After a merge the requests are of the same kinds besides, and the list has no new one.
abbrev pub IsTaken : Elevator → Elevator → Type 0
IsTaken s s' = IsLeft s s' × SameKinds s s' × IsFewer s s'

-- What an attempt to merge leaves: the bytes, the lists in order, and everything if it fails.
abbrev pub IsMerged : Elevator → Bool × Elevator → Type 0
IsMerged s (b, s') =
    (queued_bytes s' ≡ queued_bytes s)
    × IsElevator s'
    × (b ≡ false → s' ≡ s)
    × (b ≡ true → IsTaken s s')

module _ (s : Elevator) (v : IsElevator s) where
  -- The counts after two requests have become one.
  tallied :
      (r n : ℕ) (joined : Request)
      → joined.cmd ≡ (s.requests r).cmd
      → on_hash n s.queue ≡ true
      → HasCounts s
      → (c : Command)
      → lower_count (s.requests n).cmd s.counts c + tally c s.requests s.queue
        ≡ s.counts c
          + tally c (λ (i : ℕ). if i == r then joined else s.requests i) (without n s.queue)
  tallied r n joined same has_n h c =
      let kinds =
        tally_kinds c s.requests (λ (i : ℕ). if i == r then joined else s.requests i)
          (without n s.queue) (set-cmd s.requests r joined same) in
      lower_count_lem (s.requests n).cmd c s.counts (tally c s.requests s.queue) _
        (ap (λ t. t + unit_of c (s.requests n)) kinds
          ∙ tally-without c s.requests n s.queue v.distinct has_n)
        (h c)

  -- Two neighbours that become one request keep their bytes.
  attempt_merge_lem :
      (r n : ℕ)
      → on_hash r s.queue ≡ true
      → on_hash n s.queue ≡ true
      → n ≢ r
      → queued_bytes s < 2 ^ 64
      → Ends (IsMerged s) (attempt_merge r n s)
  unfolding attempt_merge splice_ioreq elv_merge_requests elv_rqhash_reposition elv_rqhash_add
      elv_rqhash_del
  attempt_merge_lem r n has_r has_n differ small =
      let q = s.requests r in
      let m = s.requests n in
      let rest =
        bytes_member s.requests r (without n s.queue)
          (on_hash-without-other r n s.queue differ has_r) in
      let split = bytes-without s.requests n s.queue v.distinct has_n in
      let sum : u64 (q.count + m.count) ≡ q.count + m.count =
        u64_id (q.count + m.count) (omega arith) in
      let joined : Request = record q {
        count = u64 (q.count + m.count);
        batch = q.batch ++ m.batch;
      } in
      let after : ℕ → Request = λ i. if i == r then joined else s.requests i in
      let inside = bytes_inside s.requests r joined s.queue v.distinct has_r in
      let cut = bytes-without after n s.queue v.distinct has_n in
      let same : (after n).count ≡ m.count = ground arith in
      let free : not (on_hash r (without r s.hash)) ≡ true = rw (on_hash-without r s.hash) refl in
      let q_filled = v.filled r has_r in
      let m_filled = v.filled n has_n in
      Ends-if
        (u64 (q.off + q.count) == m.off
          && same_command q.cmd m.cmd
          && leb (u64 (q.count + m.count)) s.maxsize)
        (λ _.
          rw (q_filled, m_filled, free)
            (ends (
              (let kept : bytes after (without n s.queue) ≡ queued_bytes s = omega arith in kept),
              record {
                distinct = without-IsDistinct n s.queue v.distinct;
                last = λ l e.
                    newest_member r l (without n s.queue) e
                      (on_hash-without-other r n s.queue differ has_r);
                hashed = merged_member s v r has_r n;
                filled =
                    set-IsFilled s.requests r joined (without n s.queue)
                      (no_ioreq-append q.batch m.batch q_filled)
                      λ x here. v.filled x (without_member n x s.queue here);
              },
              (λ f. absurd cc),
              λ _. (
                (refl, (r, refl), tallied r n joined refl has_n),
                set-cmd s.requests r joined refl,
                λ x here. without_member n x s.queue here,
              ),
            )))
        λ _. ends (refl, v, (λ _. refl), λ f. absurd cc)

  -- Nothing is merged where there is no neighbour.
  attempt_back_merge_lem :
      (r : ℕ)
      → on_hash r s.queue ≡ true
      → queued_bytes s < 2 ^ 64
      → Ends (IsMerged s) (attempt_back_merge r s)
  unfolding attempt_back_merge
  attempt_back_merge_lem r has_r small = elim (Option-cases (latter r s.queue)) [
    | inl alone ↦ rw (alone, attempt_back_merge) (ends (refl, v, (λ _. refl), λ f. absurd cc))
    | inr (n, next) ↦
        let (has_n, differ) = latter_lem r n s.queue v.distinct next in
        rw (next, attempt_back_merge) (attempt_merge_lem r n has_r has_n differ small)
  ]

  attempt_front_merge_lem :
      (r : ℕ)
      → on_hash r s.queue ≡ true
      → queued_bytes s < 2 ^ 64
      → Ends (IsMerged s) (attempt_front_merge r s)
  unfolding attempt_front_merge
  attempt_front_merge_lem r has_r small = elim (Option-cases (former r s.queue)) [
    | inl alone ↦ rw (alone, attempt_front_merge) (ends (refl, v, (λ _. refl), λ f. absurd cc))
    | inr (n, prev) ↦
        let (has_n, differ) = former_lem r n s.queue v.distinct prev in
        rw (prev, attempt_front_merge)
          (attempt_merge_lem n r has_n has_r (λ e. differ (sym e)) small)
  ]

-- The request that was merged last is hashed anew after a merge at its back.
elv_merged_request_lem :
    (r : ℕ) (way : Merging) (s : Elevator)
    → IsElevator s
    → on_hash r s.queue ≡ true
    → Ends
        (λ s'. (queued_bytes s' ≡ queued_bytes s) × IsElevator s' × IsTaken s s')
        (elv_merged_request r way s)
unfolding elv_merged_request elv_rqhash_reposition elv_rqhash_add elv_rqhash_del
elv_merged_request_lem r way s v has_r = by_way way
  where
    newest : (l : ℕ) → some r ≡ some l → on_hash l s.queue ≡ true
    newest l e = newest_member r l s.queue e has_r

    by_way :
        (way : Merging)
        → Ends
            (λ s'. (queued_bytes s' ≡ queued_bytes s) × IsElevator s' × IsTaken s s')
            (elv_merged_request r way s)
    by_way back_merge =
        let free : not (on_hash r (without r s.hash)) ≡ true = rw (on_hash-without r s.hash) refl in
        rw free (
          ends (
            refl,
            record {
              distinct = v.distinct;
              last = newest;
              hashed = reposition_member s v r has_r;
              filled = v.filled;
            },
            ((refl, (r, refl), (λ h c. refl)), (λ x. refl), λ x here. here),
          ))
    by_way front_merge = ends (
      refl,
      record { distinct = v.distinct; last = newest; hashed = v.hashed; filled = v.filled },
      ((refl, (r, refl), (λ h c. refl)), (λ x. refl), λ x here. here),
    )
    by_way no_merge = ends (
      refl,
      record { distinct = v.distinct; last = newest; hashed = v.hashed; filled = v.filled },
      ((refl, (r, refl), (λ h c. refl)), (λ x. refl), λ x here. here),
    )

module _ (e : ℕ) (io : Ioreq) (r : ℕ) (s : Elevator) (v : IsElevator s)
    (has_r : on_hash r s.queue ≡ true) (small : queued_bytes s + io.count < 2 ^ 64) where
  -- The bytes after a request of the list has taken the I/O request.
  grown_lem :
      (way : Merging)
      → queued_bytes (set_request r (extended way e io (s.requests r)) s)
        ≡ queued_bytes s + io.count
  grown_lem way =
      let member = bytes_member s.requests r s.queue has_r in
      let sum = u64_id ((s.requests r).count + io.count) (omega arith) in
      let inside =
        bytes_inside s.requests r (extended way e io (s.requests r)) s.queue v.distinct has_r in
      let more : (extended way e io (s.requests r)).count ≡ (s.requests r).count + io.count =
        count way sum in
      omega arith
    where
      count :
          (way : Merging)
          → u64 ((s.requests r).count + io.count) ≡ (s.requests r).count + io.count
          → (extended way e io (s.requests r)).count ≡ (s.requests r).count + io.count
      count no_merge sum = sum
      count front_merge sum = sum
      count back_merge sum = sum

  abbrev grown : Merging → Elevator
  grown way = set_request r (extended way e io (s.requests r)) s

  grown-IsElevator : (way : Merging) → IsElevator (grown way)
  grown-IsElevator way = record {
    distinct = v.distinct;
    last = v.last;
    hashed = v.hashed;
    filled =
        set-IsFilled s.requests r (extended way e io (s.requests r)) s.queue (holds way) v.filled;
  }
    where
      holds : (way : Merging) → no_ioreq (extended way e io (s.requests r)).batch ≡ false
      holds no_merge = no_ioreq-last (s.requests r).batch e
      holds front_merge = refl
      holds back_merge = no_ioreq-last (s.requests r).batch e

  grown-SameKinds : (way : Merging) → SameKinds s (grown way)
  grown-SameKinds way = set-cmd s.requests r (extended way e io (s.requests r)) (kept way)
    where
      kept : (way : Merging) → (extended way e io (s.requests r)).cmd ≡ (s.requests r).cmd
      kept no_merge = refl
      kept front_merge = refl
      kept back_merge = refl

  -- A merge after the request has grown is a merge.
  grown-IsTaken : (way : Merging) (t : Elevator) → IsTaken (grown way) t → IsTaken s t
  grown-IsTaken way t ((dispatch, last, tallied), kinds, fewer) =
      ((dispatch, last, tallied'), (λ x. kinds x ∙ grown-SameKinds way x), fewer)
    where
      same : (c : Command) → tally c (grown way).requests s.queue ≡ tally c s.requests s.queue
      same c = tally_kinds c s.requests (grown way).requests s.queue (grown-SameKinds way)

      tallied' : IsTallied s t
      tallied' h c =
          let change = tallied (λ k. omega (arith, same k, h k)) c in omega (arith, same c, change)

  back-IsTaken : (way : Merging) (s' t : Elevator) → s' ≡ grown way → IsTaken s' t → IsTaken s t
  back-IsTaken way s' t back taken =
      grown-IsTaken way t (subst (λ (u : Elevator). IsTaken u t) back taken)

  merged_lem :
      (way : Merging) (merging : Run (Bool × Elevator))
      → Ends (IsMerged (grown way)) merging
      → Ends
          (λ s'. (queued_bytes s' ≡ queued_bytes s + io.count) × IsElevator s' × IsTaken s s')
          (merging >>= λ (merged, s'). if merged then ok s' else elv_merged_request r way s')
  merged_lem way merging went = Ends-bind went λ (merged, s') (same, kept, unmerged, taken).
      Ends-if merged (λ t. ends (same ∙ grown_lem way, kept, grown-IsTaken way s' (taken t)))
        λ f.
          let back : s' ≡ grown way = unmerged f in
          let here : on_hash r s'.queue ≡ true =
            ap (λ (t : Elevator). on_hash r t.queue) back ∙ has_r in
          Ends-map (elv_merged_request_lem r way s' kept here) λ t (bytes_kept, kept', taken').
            (bytes_kept ∙ same ∙ grown_lem way, kept', back-IsTaken way s' t back taken')

  pub merge_into_lem :
      (way : Merging)
      → Ends
          (λ s'. (queued_bytes s' ≡ queued_bytes s + io.count) × IsElevator s' × IsTaken s s')
          (merge_into way e io r s)
  unfolding merge_into
  merge_into_lem no_merge = merged_lem no_merge _ (
      attempt_back_merge_lem (grown no_merge) (grown-IsElevator no_merge) r has_r
        (omega (arith, grown_lem no_merge)))
  merge_into_lem back_merge = merged_lem back_merge _ (
      attempt_back_merge_lem (grown back_merge) (grown-IsElevator back_merge) r has_r
        (omega (arith, grown_lem back_merge)))
  merge_into_lem front_merge = merged_lem front_merge _ (
      attempt_front_merge_lem (grown front_merge) (grown-IsElevator front_merge) r has_r
        (omega (arith, grown_lem front_merge)))
