-- ===== src/DeadLetter/Listing/Complete.antt =====
-- The last page of `listEntries` (packages/backend/src/common/queues/dead-letter.service.ts).
use Prim.Native.String.{String}
use mathlib.Core.List.{append_assoc, append-nil}
use backit_on_stellar.Prelude.{
  ℕ, zero, suc, ◌+◌, ◌-◌, ◌≡◌, ◌≢◌, ◌<◌, refl, sym, false, List, [], ◌∷◌, ◌++◌, none, if◌then◌else◌,
  or_else, length, take, drop, leb, ◌==◌, ==_iff, arith, ◌∙◌, ap, Bool-cases, inl, inr,
  take-append-drop, drop-drop, drop-length-take, take_all,
}
use backit_on_stellar.DeadLetter.Entry.{Payload, Entry, normalize_entry}
use backit_on_stellar.DeadLetter.Queue.{DeadQueue}
use backit_on_stellar.DeadLetter.Listing.{
  Query, is_match, collect, Scan, scan, read_window, is_page_done, limit_of, start_of, list_entries,
  window_jobs, list_scan_window,
}

-- The entries of some jobs that pass the filters.
abbrev pub matching : Query → List (String × Payload) → List Entry
matching q [] = []
matching q ((id, p) ∷ jobs) =
    let e = normalize_entry id p in
    let rest = matching q jobs in if is_match q e then e ∷ rest else rest

matching-append :
    (q : Query) (xs ys : List (String × Payload))
    → matching q (xs ++ ys) ≡ matching q xs ++ matching q ys
matching-append q [] ys = refl
matching-append q ((id, p) ∷ xs) ys = elim (Bool-cases (is_match q (normalize_entry id p))) [
  | inl t ↦ rw (t, matching-append q xs ys)
  | inr t ↦ rw (t, matching-append q xs ys)
]

-- A window that leaves room on the page has been read to its end.
collect_all :
    (q : Query) (limit : ℕ) (jobs : List (String × Payload)) (entries : List Entry)
    → length (collect q limit jobs entries) < limit
    → collect q limit jobs entries ≡ entries ++ matching q jobs
unfolding collect
collect_all q limit [] entries h = sym (append-nil entries)
collect_all q limit ((id, p) ∷ jobs) entries h =
    elim (Bool-cases (is_match q (normalize_entry id p))) [
      | inr t ↦ rw t (collect_all q limit jobs entries (rw t at h))
      | inl t ↦ elim (Bool-cases (leb limit (length (entries ++ normalize_entry id p ∷ [])))) [
        | inl u ↦ absurd (ground (arith, rw (t, u) at h))
        | inr u ↦
            rw (t, u)
              (collect_all q limit jobs (entries ++ normalize_entry id p ∷ []) (rw (t, u) at h)
                ∙ append_assoc entries (normalize_entry id p ∷ []) (matching q jobs))
      ]
    ]

module _ (dq : DeadQueue) (queue : dq.Queue) (q : Query) (limit : ℕ) where
  abbrev rest_of : Scan → List (String × Payload)
  rest_of s = drop s.offset (dq.waiting queue)

  abbrev window_of : Scan → List (String × Payload)
  window_of s = dq.get_jobs queue s.offset (s.offset + list_scan_window - 1)

  short_window :
      (s : Scan) → (length (window_of s) == 200) ≡ false → length (take 200 (rest_of s)) ≢ 200
  short_window s short e =
      let full : length (window_of s) ≡ 200 = ap length (window_jobs dq queue s.offset) ∙ e in
      cc ((==_iff (length (window_of s)) 200).1 full)

  -- A window that is not full is the rest of the queue.
  last_window :
      (s : Scan)
      → (read_window q limit (window_of s) s).saw_full_window ≡ false
      → length (read_window q limit (window_of s) s).entries < limit
      → (read_window q limit (window_of s) s).entries ≡ s.entries ++ matching q (rest_of s)
  unfolding read_window
  last_window s short room =
      collect_all q limit (window_of s) s.entries room
      ∙ ap (λ jobs. s.entries ++ matching q jobs)
          (window_jobs dq queue s.offset ∙ take_all 200 (rest_of s) (short_window s short))

  more_windows :
      (s : Scan) (entries : List Entry)
      → length (read_window q limit (window_of s) s).entries < limit
      → entries
        ≡ (read_window q limit (window_of s) s).entries
          ++ matching q (rest_of (read_window q limit (window_of s) s))
      → entries ≡ s.entries ++ matching q (rest_of s)
  unfolding read_window
  more_windows s entries room e =
      let rest = rest_of s in
      let jobs_are = window_jobs dq queue s.offset in
      let tail_is : drop (s.offset + length (window_of s)) (dq.waiting queue) ≡ drop 200 rest =
        sym (drop-drop s.offset (length (window_of s)) (dq.waiting queue))
        ∙ ap (λ jobs. drop (length jobs) rest) jobs_are
        ∙ drop-length-take 200 rest in
      let whole : matching q (take 200 rest) ++ matching q (drop 200 rest) ≡ matching q rest =
        sym (matching-append q (take 200 rest) (drop 200 rest))
        ∙ ap (matching q) (take-append-drop 200 rest) in
      let here : collect q limit (window_of s) s.entries ≡ s.entries ++ matching q (take 200 rest) =
        collect_all q limit (window_of s) s.entries room
        ∙ ap (λ jobs. s.entries ++ matching q jobs) jobs_are in
      e
      ∙ rw (tail_is, here)
          (append_assoc s.entries (matching q (take 200 rest)) (matching q (drop 200 rest))
            ∙ ap (λ es. s.entries ++ es) whole)

  room_of :
      (jobs : List (String × Payload)) (s : Scan)
      → is_page_done limit jobs s ≡ false
      → length s.entries < limit
  unfolding is_page_done
  room_of jobs s t = ground arith

  -- A scan that ends on a window that is not full, with room left, has read everything.
  scan_all :
      (windows : ℕ) (s : Scan)
      → (scan dq (suc windows) queue q limit s).saw_full_window ≡ false
      → length (scan dq (suc windows) queue q limit s).entries < limit
      → (scan dq (suc windows) queue q limit s).entries ≡ s.entries ++ matching q (rest_of s)
  unfolding scan
  scan_all zero s short room =
      elim (Bool-cases (is_page_done limit (window_of s) (read_window q limit (window_of s) s))) [
        | inl t ↦ rw t (last_window s (rw t at short) (rw t at room))
        | inr t ↦ rw t (last_window s (rw t at short) (rw t at room))
      ]
  scan_all (suc windows) s short room =
      let s' = read_window q limit (window_of s) s in
      elim (Bool-cases (is_page_done limit (window_of s) s')) [
        | inl t ↦ rw t (last_window s (rw t at short) (rw t at room))
        | inr t ↦ rw t (
            more_windows s _ (room_of (window_of s) s' t)
              (scan_all windows s' (rw t at short) (rw t at room)))
      ]

-- A page that gives no cursor for a next one holds every entry from its start on that passes the
-- filters, in the order of the queue.
pub last_page_complete :
    (dq : DeadQueue) (queue : dq.Queue) (q : Query)
    → (list_entries dq queue q).next_cursor ≡ none
    → (list_entries dq queue q).entries ≡ matching q (drop (or_else q.cursor 0) (dq.waiting queue))
unfolding list_entries
last_page_complete dq queue q h =
    let s = scan dq 20 queue q (limit_of dq q) (start_of dq q) in
    let short : s.saw_full_window ≡ false = ground arith in
    let room : length s.entries < limit_of dq q = ground arith in
    scan_all dq queue q (limit_of dq q) 19 (start_of dq q) short room
