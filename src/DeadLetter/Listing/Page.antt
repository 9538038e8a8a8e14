-- ===== src/DeadLetter/Listing/Page.antt =====
-- What a page of `listEntries` (packages/backend/src/common/queues/dead-letter.service.ts) holds.
use Prim.Native.String.{String}
use backit_on_stellar.Prelude.{
  ℕ, zero, suc, ◌+◌, ◌-◌, ◌≡◌, ◌≤◌, ◌<◌, true, false, List, [], ◌∷◌, ◌++◌, length, length-append,
  leb, arith, All, All-append, Bool-cases, inl, inr,
}
use backit_on_stellar.DeadLetter.Entry.{Payload, Entry, normalize_entry}
use backit_on_stellar.DeadLetter.Queue.{DeadQueue}
use backit_on_stellar.DeadLetter.Listing.{
  Query, is_match, collect, Scan, scan, read_window, is_page_done, limit_of, start_of, list_entries,
  list_scan_window,
}

collect-length :
    (q : Query) (limit : ℕ) (jobs : List (String × Payload)) (entries : List Entry)
    → length entries < limit
    → length (collect q limit jobs entries) ≤ limit
unfolding collect
collect-length q limit [] entries h = omega arith
collect-length q limit ((id, p) ∷ jobs) entries h = ground (
  arith,
  length-append entries (normalize_entry id p ∷ []),
  collect-length q limit jobs entries h,
  collect-length q limit jobs (entries ++ normalize_entry id p ∷ []),
)

abbrev pub Matches : Query → Entry → Type 0
Matches q e = is_match q e ≡ true

collect-Matches :
    (q : Query) (limit : ℕ) (jobs : List (String × Payload)) (entries : List Entry)
    → All (Matches q) entries
    → All (Matches q) (collect q limit jobs entries)
unfolding collect
collect-Matches q limit [] entries h = h
collect-Matches q limit ((id, p) ∷ jobs) entries h =
    elim (Bool-cases (is_match q (normalize_entry id p))) [
      | inr t ↦ rw t (collect-Matches q limit jobs entries h)
      | inl t ↦
          let more = All-append (Matches q) entries (normalize_entry id p ∷ []) h (t, tt) in
          elim (Bool-cases (leb limit (length (entries ++ normalize_entry id p ∷ [])))) [
            | inl u ↦ rw (t, u) more
            | inr u ↦ rw (t, u) (collect-Matches q limit jobs _ more)
          ]
    ]

room_left :
    (q : Query) (limit : ℕ) (jobs : List (String × Payload)) (s : Scan)
    → length (collect q limit jobs s.entries) ≤ limit
    → is_page_done limit jobs (read_window q limit jobs s) ≡ false
    → length (collect q limit jobs s.entries) < limit
unfolding is_page_done read_window
room_left q limit jobs s h t = ground arith

module _ (dq : DeadQueue) where
  scan_bounds :
      (windows : ℕ) (queue : dq.Queue) (q : Query) (limit : ℕ) (s : Scan)
      → length s.entries < limit
      → All (Matches q) s.entries
      → (length (scan dq windows queue q limit s).entries ≤ limit)
        × All (Matches q) (scan dq windows queue q limit s).entries
  unfolding scan read_window
  scan_bounds zero queue q limit s h m = (omega arith, m)
  scan_bounds (suc windows) queue q limit s h m =
      let jobs = dq.get_jobs queue s.offset (s.offset + list_scan_window - 1) in
      let s' = read_window q limit jobs s in
      let size = collect-length q limit jobs s.entries h in
      let good = collect-Matches q limit jobs s.entries m in
      elim (Bool-cases (is_page_done limit jobs s')) [
        | inl t ↦ rw t (size, good)
        | inr t ↦ rw t (scan_bounds windows queue q limit s' (room_left q limit jobs s size t) good)
      ]

  -- A page holds at most the number of entries asked for, never more than 100, and each of them
  -- passes every filter of the query.
  pub page-Matches :
      (queue : dq.Queue) (q : Query)
      → (length (list_entries dq queue q).entries ≤ limit_of dq q)
        × (length (list_entries dq queue q).entries ≤ 100)
        × All (Matches q) (list_entries dq queue q).entries
  unfolding list_entries
  page-Matches queue q =
      let (count, good) = scan_bounds 20 queue q (limit_of dq q) (start_of dq q) (omega arith) tt in
      (count, omega (arith, count), good)
