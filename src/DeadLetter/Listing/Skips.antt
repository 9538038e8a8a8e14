-- ===== src/DeadLetter/Listing/Skips.antt =====
-- A full page of `listEntries` (packages/backend/src/common/queues/dead-letter.service.ts), and where
-- the next page starts.
use Prim.Native.String.{String}
use mathlib.Core.List.{append_assoc, append-nil}
use backit_on_stellar.Prelude.{
  ℕ, zero, suc, ◌+◌, ◌-◌, ◌≡◌, ◌≤◌, refl, sym, true, false, List, [], ◌∷◌, ◌++◌, map, none, some,
  length, length-append, length-take, take, drop, leb, ==_iff, arith, ◌∙◌, ap, take-take,
  length-map,
}
use backit_on_stellar.DeadLetter.Entry.{Payload, Entry, normalize_entry}
use backit_on_stellar.DeadLetter.Queue.{DeadQueue}
use backit_on_stellar.DeadLetter.Listing.{
  Query, is_match, collect, Scan, scan, read_window, is_page_done, limit_of, start_of, list_entries,
  window_jobs, list_scan_window,
}

-- A query with no filter.
abbrev pub unfiltered : ℕ → ℕ → Query
unfiltered limit cursor = record {
  cursor = some cursor;
  limit = some limit;
  source_queue = none;
  classification = none;
  replay_status = none;
  from = none;
  to = none;
}

abbrev pub entry_of : String × Payload → Entry
entry_of (id, p) = normalize_entry id p

collect-take :
    (limit cursor k : ℕ) (jobs : List (String × Payload)) (entries : List Entry)
    → length entries + suc k ≡ limit
    → collect (unfiltered limit cursor) limit jobs entries
      ≡ entries ++ map entry_of (take (suc k) jobs)
unfolding collect is_match
collect-take limit cursor k [] entries h = sym (append-nil entries)
collect-take limit cursor zero ((id, p) ∷ jobs) entries h =
    let e = normalize_entry id p in
    let full : leb limit (length (entries ++ e ∷ [])) ≡ true =
      ground (arith, length-append entries (e ∷ [])) in
    rw full
collect-take limit cursor (suc k) ((id, p) ∷ jobs) entries h =
    let e = normalize_entry id p in
    let size = length-append entries (e ∷ []) in
    let open_still : leb limit (length (entries ++ e ∷ [])) ≡ false = ground (arith, size) in
    rw open_still (
      collect-take limit cursor k jobs (entries ++ e ∷ []) (omega (arith, size))
      ∙ append_assoc entries (e ∷ []) (map entry_of (take (suc k) jobs)))

full_done :
    (limit : ℕ) (jobs : List (String × Payload)) (s : Scan)
    → length s.entries ≡ limit
    → is_page_done limit jobs s ≡ true
unfolding is_page_done
full_done limit jobs s h = ground arith

scan_done :
    (dq : DeadQueue) (queue : dq.Queue) (q : Query) (limit windows : ℕ) (s : Scan)
    → let jobs = dq.get_jobs queue s.offset (s.offset + list_scan_window - 1) in
      is_page_done limit jobs (read_window q limit jobs s) ≡ true
      → scan dq (suc windows) queue q limit s ≡ read_window q limit jobs s
unfolding scan
scan_done dq queue q limit windows s t = rw t

module _ (dq : DeadQueue) (queue : dq.Queue) (limit cursor : ℕ) (lo : 1 ≤ limit) (hi : limit ≤ 100)
    (many : 200 ≤ length (drop cursor (dq.waiting queue))) where
  abbrev first_window : List (String × Payload)
  first_window = dq.get_jobs queue cursor (cursor + list_scan_window - 1)

  full_window : length first_window ≡ 200
  full_window =
      ap length (window_jobs dq queue cursor)
      ∙ omega (arith, length-take 200 (drop cursor (dq.waiting queue)))

  first_entries :
      collect (unfiltered limit cursor) limit first_window []
      ≡ map entry_of (take limit (drop cursor (dq.waiting queue)))
  first_entries =
      let e : limit ≡ suc (limit - 1) = omega arith in
      collect-take limit cursor (limit - 1) first_window [] (omega arith)
      ∙ ap (λ n. map entry_of (take n first_window)) (sym e)
      ∙ ap (λ jobs. map entry_of (take limit jobs)) (window_jobs dq queue cursor)
      ∙ ap (map entry_of) (take-take limit 200 (drop cursor (dq.waiting queue)) (omega arith))

  first_count : length (collect (unfiltered limit cursor) limit first_window []) ≡ limit
  first_count =
      ap length first_entries
      ∙ length-map (take limit (drop cursor (dq.waiting queue))) entry_of
      ∙ omega (arith, length-take limit (drop cursor (dq.waiting queue)))

  first_done :
      is_page_done limit first_window (
        read_window
          (unfiltered limit cursor)
          limit
          first_window
          (start_of dq (unfiltered limit cursor)))
      ≡ true
  unfolding read_window
  first_done = full_done limit first_window _ first_count

  first_scan :
      scan dq 20 queue (unfiltered limit cursor) limit (start_of dq (unfiltered limit cursor))
      ≡ read_window
          (unfiltered limit cursor)
          limit
          first_window
          (start_of dq (unfiltered limit cursor))
  first_scan =
      scan_done dq queue (unfiltered limit cursor) limit 19 (start_of dq (unfiltered limit cursor))
        first_done

-- On a queue with a full window of 200 entries from the cursor on, an unfiltered page of 1 to 100
-- entries ends at its limit, yet its cursor points behind the whole window.
pub full_page_skips :
    (dq : DeadQueue) (queue : dq.Queue) (limit cursor : ℕ)
    → 1 ≤ limit
    → limit ≤ 100
    → 200 ≤ length (drop cursor (dq.waiting queue))
    → ((list_entries dq queue (unfiltered limit cursor)).entries
        ≡ map entry_of (take limit (drop cursor (dq.waiting queue))))
      × ((list_entries dq queue (unfiltered limit cursor)).next_cursor ≡ some (cursor + 200))
unfolding list_entries read_window
full_page_skips dq queue limit cursor lo hi many =
    let lim : limit_of dq (unfiltered limit cursor) ≡ limit = omega arith in
    let whole = full_window dq queue limit cursor lo hi many in
    rw (lim, first_scan dq queue limit cursor lo hi many)
      (first_entries dq queue limit cursor lo hi many, rw ((==_iff _ 200).1 whole, whole) refl)
