-- ===== src/DeadLetter/Tests/Windows.antt =====
-- Runs of the clean-up, the listing and the metrics of packages/backend/src/common/queues.
use Prim.Native.String.{String}
use backit_on_stellar.Prelude.{
  ℕ, zero, suc, ◌+◌, ◌≤◌, ◌≡◌, refl, true, none, some, List, [], ◌∷◌, length, map, take, drop, inl,
  arith, ◌*◌, ap,
}
use backit_on_stellar.DeadLetter.Entry.{Payload}
use backit_on_stellar.DeadLetter.Queue.{find, erase}
use backit_on_stellar.DeadLetter.Queue.Unique.{Unique}
use backit_on_stellar.DeadLetter.Listing.{
  is_match, list_entries, scan, read_window, is_page_done, collect,
}
use backit_on_stellar.DeadLetter.Listing.Skips.{unfiltered, entry_of, full_page_skips}
use backit_on_stellar.DeadLetter.Cleanup.{
  should_remove, cleanup_expired_entries, cleanup_loop, sweep, day_ms,
}
use backit_on_stellar.DeadLetter.Cleanup.Keeps.{Protected, cleanup_keeps}
use backit_on_stellar.DeadLetter.Cleanup.Loop.{NoneExpired, cleanup_diverges}
use backit_on_stellar.DeadLetter.Tests.{list_queue, open_payload, old_payload, two_jobs, a_found}

b_found : find "b" two_jobs ≡ some old_payload
unfolding find
b_found = refl

abbrev now : ℕ
now = 10 * day_ms

cleaned : cleanup_expired_entries list_queue 1 now two_jobs ≡ some (("a", open_payload) ∷ [], 1)
unfolding cleanup_expired_entries cleanup_loop sweep should_remove erase
cleaned = refl

b_expired : should_remove now "b" old_payload ≡ true
unfolding should_remove
b_expired = refl

two_jobs-Unique : Unique two_jobs
unfolding find
two_jobs-Unique = (refl, (refl, tt))

a-Protected : Protected now open_payload
unfolding Protected
a-Protected = inl refl

cleanup_keeps_example : find "a" (("a", open_payload) ∷ []) ≡ some open_payload
cleanup_keeps_example =
    cleanup_keeps list_queue 1 now two_jobs (("a", open_payload) ∷ []) 1 "a" open_payload
      two_jobs-Unique a_found a-Protected cleaned

-- So many copies of an open entry.
abbrev copies : ℕ → List (String × Payload)
copies zero = []
copies (suc n) = ("a", open_payload) ∷ copies n

length-copies : (n : ℕ) → length (copies n) ≡ n
length-copies zero = refl
length-copies (suc n) = ap suc (length-copies n)

copies-NoneExpired : (k n : ℕ) → NoneExpired now (take k (copies n))
unfolding should_remove
copies-NoneExpired zero n = tt
copies-NoneExpired (suc k) zero = tt
copies-NoneExpired (suc k) (suc n) = (refl, copies-NoneExpired k n)

many : 200 ≤ length (copies 200)
many = omega (arith, length-copies 200)

cleanup_diverges_example : cleanup_expired_entries list_queue 1000 now (copies 200) ≡ none
cleanup_diverges_example =
    cleanup_diverges list_queue now (copies 200) (copies-NoneExpired 200 200) many 1000

full_page_skips_example :
    ((list_entries list_queue (copies 200) (unfiltered 20 0)).entries
      ≡ map entry_of (take 20 (drop 0 (copies 200))))
    × ((list_entries list_queue (copies 200) (unfiltered 20 0)).next_cursor ≡ some (0 + 200))
full_page_skips_example =
    full_page_skips list_queue (copies 200) 20 0 (omega arith) (omega arith) many

no_cursor : (list_entries list_queue two_jobs (unfiltered 20 0)).next_cursor ≡ none
unfolding list_entries scan read_window is_page_done collect is_match
no_cursor = refl
