-- ===== src/DeadLetter/Metrics/Counts.antt =====
-- That `emitDepthMetrics` (packages/backend/src/common/queues/dead-letter.service.ts) ends and counts
-- every entry once.
use Prim.Native.String.{String}
use backit_on_stellar.Prelude.{
  ℕ, zero, suc, ◌+◌, ◌-◌, ◌≡◌, ◌≢◌, ◌≤◌, ◌<◌, refl, sym, ◌∙◌, ap, true, false, List, [], ◌∷◌, ◌++◌,
  some, length, length-take, length-drop, take, drop, take-append-drop, drop-drop, drop-length-take,
  take_all, ltb, ◌==◌, arith, inl, inr, Bool-cases,
}
use backit_on_stellar.DeadLetter.Entry.{Payload, normalize_entry}
use backit_on_stellar.DeadLetter.Queue.{DeadQueue}
use backit_on_stellar.DeadLetter.Listing.{window_jobs, list_scan_window}
use backit_on_stellar.DeadLetter.Metrics.{
  Depth, no_depth, count_entry, count_jobs, depth_loop, emit_depth_metrics,
}

count_jobs-append :
    (xs ys : List (String × Payload)) (d : Depth)
    → count_jobs d (xs ++ ys) ≡ count_jobs (count_jobs d xs) ys
unfolding count_jobs
count_jobs-append [] ys d = refl
count_jobs-append ((id, p) ∷ xs) ys d =
    count_jobs-append xs ys (count_entry d (normalize_entry id p))

nothing_left : (xs : List (String × Payload)) → length (take 200 xs) ≡ 0 → xs ≡ []
nothing_left [] h = refl
nothing_left (x ∷ xs) h = absurd (omega (arith, h))

module _ (dq : DeadQueue) (q : dq.Queue) where
  abbrev rest_from : ℕ → List (String × Payload)
  rest_from offset = drop offset (dq.waiting q)

  abbrev jobs_at : ℕ → List (String × Payload)
  jobs_at offset = dq.get_jobs q offset (offset + list_scan_window - 1)

  rest_after :
      (offset : ℕ) → rest_from (offset + length (jobs_at offset)) ≡ drop 200 (rest_from offset)
  rest_after offset =
      sym (drop-drop offset (length (jobs_at offset)) (dq.waiting q))
      ∙ ap (λ jobs. drop (length jobs) (rest_from offset)) (window_jobs dq q offset)
      ∙ drop-length-take 200 (rest_from offset)

  count_rest :
      (offset : ℕ) (d : Depth)
      → count_jobs (count_jobs d (jobs_at offset)) (rest_from (offset + length (jobs_at offset)))
        ≡ count_jobs d (rest_from offset)
  count_rest offset d =
      rw (rest_after offset, window_jobs dq q offset)
        (sym (count_jobs-append (take 200 (rest_from offset)) (drop 200 (rest_from offset)) d)
          ∙ ap (count_jobs d) (take-append-drop 200 (rest_from offset)))

  read_length : (offset : ℕ) → length (jobs_at offset) ≡ length (take 200 (rest_from offset))
  read_length offset = ap length (window_jobs dq q offset)

  short :
      (offset : ℕ)
      → ltb (length (jobs_at offset)) 200 ≡ true
      → length (take 200 (rest_from offset)) ≢ 200
  short offset u e = ground (arith, read_length offset)

  fewer :
      (fuel offset : ℕ)
      → length (rest_from offset) < suc fuel
      → (length (jobs_at offset) == 0) ≡ false
      → length (rest_from (offset + length (jobs_at offset))) < fuel
  fewer fuel offset h t =
      let some_read : 1 ≤ length (jobs_at offset) = ground (arith, t) in
      omega (
        arith,
        some_read,
        h,
        read_length offset,
        length-take 200 (rest_from offset),
        length-drop 200 (rest_from offset),
        ap length (rest_after offset),
      )

  loop_counts :
      (fuel offset : ℕ) (d : Depth)
      → length (rest_from offset) < fuel
      → depth_loop dq fuel q offset d ≡ some (count_jobs d (rest_from offset))
  unfolding depth_loop count_jobs
  loop_counts zero offset d h = elim h [ ]
  loop_counts (suc fuel) offset d h =
      let size = read_length offset in
      elim (Bool-cases (length (jobs_at offset) == 0)) [
        | inl t ↦ rw t (
            ap (λ r. some (count_jobs d r))
              (sym (nothing_left (rest_from offset) (ground (arith, t, size)))))
        | inr t ↦ elim (Bool-cases (ltb (length (jobs_at offset)) 200)) [
          | inl u ↦
              rw (t, u)
                (ap (λ jobs. some (count_jobs d jobs))
                  (window_jobs dq q offset ∙ take_all 200 (rest_from offset) (short offset u)))
          | inr u ↦
              rw (t, u)
                (loop_counts fuel (offset + length (jobs_at offset)) (count_jobs d (jobs_at offset))
                    (fewer fuel offset h t)
                  ∙ ap some (count_rest offset d))
        ]
      ]

-- With one round more than there are entries the metrics end, and they are the counts over all
-- entries of the queue, each counted once.
pub emit_depth_metrics_counts :
    (dq : DeadQueue) (q : dq.Queue) (fuel : ℕ)
    → length (dq.waiting q) < fuel
    → emit_depth_metrics dq fuel q ≡ some (count_jobs no_depth (dq.waiting q))
unfolding emit_depth_metrics
emit_depth_metrics_counts dq q fuel h = loop_counts dq q fuel 0 no_depth h
