-- ===== src/Consumer/Loop/Progress.antt =====
-- internal/consumer/consumer.go: the offsets while the records of one poll are handled.
use empower_technical_interv.Prelude.{
  ℕ, suc, ◌≤◌, ◌<◌, ◌≡◌, refl, ◌∙◌, sym, ap, subst, inl, inr, List, [], ◌∷◌, Option, none, some,
  arith, Option-cases, Bool-cases, ltb,
}
use empower_technical_interv.Prelude.Int.{ℤ, eq_ℤ, eq_ℤ_iff}
use empower_technical_interv.Errors.{Error}
use empower_technical_interv.Events.{Json}
use empower_technical_interv.Consumer.{Record, Runtime, Answer}
use empower_technical_interv.Consumer.Attempts.{Ended, handle-Moves}
use empower_technical_interv.Consumer.Outcomes.{handle-Ends}
use empower_technical_interv.Consumer.Loop.{
  ConsumerConfig, Group, process_record, process_fetches, after_handle, commit_timeout,
}
use empower_technical_interv.Consumer.Loop.Offsets.{
  offset_of, advance, advances, View, InOrder, Remembers, Keeps, IsKeeping, IsHandled, IsSafe,
}

module _ (j : Json) {S : Type 0} (v : View j S) where
  Keeps-refl : (s : S) → Keeps j v s s
  Keeps-refl s = (refl, refl, λ id m. m)

  Keeps-trans : (s t u : S) → Keeps j v s t → Keeps j v t u → Keeps j v s u
  Keeps-trans s t u (c1, p1, m1) (c2, p2, m2) = (c2 ∙ c1, p2 ∙ p1, λ id m. m2 id (m1 id m))

  IsHandled-still :
      (s t : S) (x : Record j.Payload) → Remembers j v s t → IsHandled j v s x → IsHandled j v t x
  IsHandled-still s t x still (evt, dec, m) = (evt, dec, still evt.event_id m)

  pub at : {c d : ℤ → ℕ} (p : ℤ) → c ≡ d → c p ≡ d p
  at p e = ap (λ f. f p) e

  pub kept :
      (s t : S) → v.committed t ≡ v.committed s → Remembers j v s t → IsSafe j v s → IsSafe j v t
  kept s t same still safe x on before =
      IsHandled-still s t x still
        (safe x on (subst (λ n. offset_of x < n) (at x.partition same) before))

  -- A record that is handled is committed, and with it what is before it.
  advanced :
      (rec : Record j.Payload) (c : ℤ → ℕ) (s t : S)
      → v.committed t ≡ advance rec (v.committed s)
      → Remembers j v s t
      → ((p : ℤ) → c p ≤ v.committed s p)
      → ((x : Record j.Payload)
          → v.IsOnTopic x
          → x.partition ≡ rec.partition
          → c rec.partition ≤ offset_of x
          → offset_of x ≤ offset_of rec
          → x ≡ rec)
      → IsSafe j v s
      → IsHandled j v s rec
      → IsSafe j v t
  advanced rec c s t moved still below next safe done x on before =
      IsHandled-still s t x still (elim (Bool-cases (eq_ℤ x.partition rec.partition)) [
        | inr other ↦
            let there : v.committed t x.partition ≡ v.committed s x.partition =
              at x.partition moved ∙ rw other refl in
            safe x on (subst (λ n. offset_of x < n) there before)
        | inl same ↦
            let there : v.committed t x.partition ≡ suc (offset_of rec) =
              at x.partition moved ∙ rw same refl in
            let equal : x.partition ≡ rec.partition = (eq_ℤ_iff x.partition rec.partition).0 same in
            elim (Bool-cases (ltb (offset_of x) (c x.partition))) [
              | inl old ↦ let low = below x.partition in safe x on (ground arith)
              | inr new ↦
                  let low : c rec.partition ≤ offset_of x =
                    subst (λ p. c p ≤ offset_of x) equal (ground arith) in
                  let early : offset_of x ≤ offset_of rec = omega (arith, before, there) in
                  subst (IsHandled j v s) (sym (next x on equal low early)) done
            ]
      ])

  module _ (g : Group j.Payload S) (law : IsKeeping j v g) (cfg : ConsumerConfig) where
    -- What holds after the records of a poll: without an error, all of them are committed.
    abbrev pub Progress : (ℤ → ℕ) → S → Option Error × S → Type 0
    Progress c s a =
        IsSafe j v a.1
        × (v.position a.1 ≡ v.position s)
        × (a.0 ≡ none → (p : ℤ) → c p ≤ v.committed a.1 p)

    commits-Progress :
        (rec : Record j.Payload) (c : ℤ → ℕ) (recs : List (Record j.Payload)) (s : S)
        → InOrder j v c (rec ∷ recs)
        → ((p : ℤ) → c p ≤ v.committed s p)
        → IsSafe j v s
        → IsHandled j v s rec
        → Progress (advance rec c) s (g.commit_records commit_timeout rec s)
    commits-Progress rec c recs s order below safe done =
        let t : S = (g.commit_records commit_timeout rec s).1 in
        let (grows, stays, still) = law.commits commit_timeout rec s in
        elim grows [
          | inl moved ↦ (
            advanced rec c s t moved still below order.0 safe done,
            stays,
            λ _ p.
                subst (λ n. advance rec c p ≤ n) (sym (at p moved))
                  (advance_mono rec c (v.committed s) p (below p)),
          )
          | inr (failed, same) ↦ (kept s t same still safe, stays, λ fine. absurd (failed fine))
        ]
      where
        advance_mono :
            (r : Record j.Payload) (a b : ℤ → ℕ) (p : ℤ) → a p ≤ b p → advance r a p ≤ advance r b p
        advance_mono r a b p h = ground arith

    -- An answer of the handler, then the commit.
    after_handle-Progress :
        (rec : Record j.Payload) (c : ℤ → ℕ) (recs : List (Record j.Payload)) (s : S)
        (ans : Answer S)
        → InOrder j v c (rec ∷ recs)
        → ((p : ℤ) → c p ≤ v.committed s p)
        → IsSafe j v s
        → Keeps j v s ans.3
        → (ans.1 ≡ none → IsHandled j v ans.3 rec)
        → Progress (advance rec c) s (after_handle j g cfg rec ans)
    after_handle-Progress rec c recs s (o, some e, log, t) order below safe (c1, p1, m1) done =
        (kept s t c1 m1 safe, p1, λ n. absurd (cc))
    after_handle-Progress rec c recs s (o, none, log, t) order below safe (c1, p1, m1) done =
        let (safe', stays, up) =
          commits-Progress rec c recs t order (λ p. subst (λ n. c p ≤ n) (sym (at p c1)) (below p))
            (kept s t c1 m1 safe) (done refl) in
        (safe', stays ∙ p1, up)

    abbrev ProgressOf : (ℤ → ℕ) → S → Option (Option Error × S) → Type 0
    ProgressOf c s r = (a : Option Error × S) × (r ≡ some a) × Progress c s a

    process_record-Progress :
        (rec : Record j.Payload) (c : ℤ → ℕ) (recs : List (Record j.Payload)) (s : S)
        → InOrder j v c (rec ∷ recs)
        → ((p : ℤ) → c p ≤ v.committed s p)
        → IsSafe j v s
        → ProgressOf (advance rec c) s (process_record j g cfg rec s)
    unfolding process_record
    process_record-Progress rec c recs s order below safe =
        let rt : Runtime S = g.with_timeout cfg.record_timeout s in
        let (ans, found, _, _, done) =
          handle-Ends rt v.IsMarked (law.marks cfg.record_timeout s) j cfg.retry rec s in
        let moved : Keeps j v s ans.3 =
          subst
            (Ended rt (Keeps j v) Keeps-refl Keeps-trans (law.stores cfg.record_timeout s)
              (law.waits cfg.record_timeout s) s)
            found
            (handle-Moves rt (Keeps j v) Keeps-refl Keeps-trans (law.stores cfg.record_timeout s)
              (law.waits cfg.record_timeout s) j cfg.retry rec s) in
        (
          after_handle j g cfg rec ans,
          rw (found, process_record) refl,
          after_handle-Progress rec c recs s ans order below safe moved done,
        )

    pub process_fetches-Progress :
        (recs : List (Record j.Payload)) (c : ℤ → ℕ) (s : S)
        → InOrder j v c recs
        → ((p : ℤ) → c p ≤ v.committed s p)
        → IsSafe j v s
        → ProgressOf (advances recs c) s (process_fetches j g cfg recs s)
    unfolding process_fetches
    process_fetches-Progress [] c s order below safe = ((none, s), refl, (safe, refl, λ _. below))
    process_fetches-Progress (rec ∷ recs) c s order below safe =
        let (a, found, (after, stays, up)) =
          process_record-Progress rec c recs s order below safe in
        elim (Option-cases a.0) [
          | inr (e, stops) ↦ (
            (some e, a.1),
            rw (found, process_fetches) (rw stops refl),
            (after, stays, λ n. absurd (cc)),
          )
          | inl fine ↦
              let (b, more, (later, stays', up')) =
                process_fetches-Progress recs (advance rec c) a.1 order.1 (up fine) after in
              (b, rw (found, process_fetches) (rw fine more), (later, stays' ∙ stays, up'))
        ]
