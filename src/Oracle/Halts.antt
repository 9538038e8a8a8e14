-- ===== src/Oracle/Halts.antt =====
-- When the check of packages/backend/src/oracle/deiviation.service.ts halts the signing.
use Prim.Native.String.{String}
use backit_on_stellar.Prelude.{
  append_assoc, ℕ, ◌≡◌, refl, Bool, true, false, List, [], ◌∷◌, ◌++◌, Option, none, some, ◌||◌,
  if◌then◌else◌,
}
use backit_on_stellar.Oracle.Deviation.{
  OraclePrice, DeviationCheckResult, PriceDeviationLog, Deviation, Check, skipped, compared,
  rejected, Comparison, result_of, log_of, after_save, check_against, join, check_all, check_priced,
  run_deviation_check, run_check, get_prices, symbols_of,
}

unfoldable pub has_breach : List PriceDeviationLog → Bool
has_breach [] = false
has_breach (r ∷ rs) = r.checked.breached || has_breach rs

-- From `s` on, `rows` were stored, and the flag went up if one of them is a breach, and only then.
pub record Halts (s s' : Deviation) : Type 0 where
  pub rows : List PriceDeviationLog
  pub stored : s'.logs ≡ rows ++ s.logs
  pub raised : s'.signing_halted ≡ (has_breach rows || s.signing_halted)

-- The runs of the worker, each in the state of the world that it meets.
unfoldable pub run_checks : Deviation → List (Comparison × Option (List OraclePrice)) → Deviation
unfolding run_check
run_checks s [] = s
run_checks s ((out, prices) ∷ later) = run_checks (run_check out s prices) later

same-Halts : (s : Deviation) → Halts s s
unfolding has_breach
same-Halts s = record { rows = []; stored = refl; raised = refl }

or_assoc : (a b c : Bool) → a || (b || c) ≡ (a || b) || c
or_assoc true b c = refl
or_assoc false b c = refl

has_breach-append :
    (xs ys : List PriceDeviationLog) → has_breach (xs ++ ys) ≡ (has_breach xs || has_breach ys)
unfolding has_breach
has_breach-append [] ys = refl
has_breach-append (x ∷ xs) ys =
    rw (has_breach-append xs ys) (or_assoc x.checked.breached (has_breach xs) (has_breach ys))

then-Halts : {a b c : Deviation} → Halts a b → Halts b c → Halts a c
then-Halts {a} {b} {c} first second = record {
  rows = second.rows ++ first.rows;
  stored = rw second.stored (rw first.stored (cc (append_assoc second.rows first.rows a.logs)));
  raised = rw second.raised (
      rw first.raised (
        rw (has_breach-append second.rows first.rows)
          (or_assoc (has_breach second.rows) (has_breach first.rows) a.signing_halted)));
}

raise : (b halted : Bool) → (if b then true else halted) ≡ ((b || false) || halted)
raise true halted = refl
raise false halted = refl

after_save-Halts :
    (saved : Bool) (s : Deviation) (row : PriceDeviationLog) → Halts s (after_save saved s row).1
unfolding after_save has_breach
after_save-Halts false s row = same-Halts s
after_save-Halts true s row = record {
  rows = row ∷ [];
  stored = refl;
  raised = raise row.checked.breached s.signing_halted;
}

check_against-Halts :
    (out : Comparison) (s : Deviation) (p : OraclePrice) (reference : Option ℕ)
    → Halts s (check_against out s p reference).1
unfolding check_against
check_against-Halts out s p none = same-Halts s
check_against-Halts out s p (some reference) =
    let row = log_of out s.signing_halted (result_of out p reference) in
    after_save-Halts (out.stores s.logs row) s row

join-Halts :
    {a s : Deviation} (c : Check) (rest : Option (List DeviationCheckResult) × Deviation)
    → Halts a s
    → Halts s rest.1
    → Halts a (join c s rest).1
unfolding join
join-Halts rejected rest first second = first
join-Halts skipped rest first second = then-Halts first second
join-Halts (compared r) (none, s') first second = then-Halts first second
join-Halts (compared r) (some rs, s') first second = then-Halts first second

check_all-Halts :
    (out : Comparison) (references : String → Option ℕ) (s : Deviation) (ps : List OraclePrice)
    → Halts s (check_all out references s ps).1
unfolding check_all
check_all-Halts out references s [] = same-Halts s
check_all-Halts out references s (p ∷ ps) =
    let now = check_against out s p (references (out.to_upper p.symbol)) in
    join-Halts now.0 (check_all out references now.1 ps)
      (check_against-Halts out s p (references (out.to_upper p.symbol)))
      (check_all-Halts out references now.1 ps)

check_priced-Halts :
    (out : Comparison) (s : Deviation) (ps : List OraclePrice)
    (references : Option (String → Option ℕ))
    → Halts s (check_priced out s ps references).1
unfolding check_priced
check_priced-Halts out s ps none = same-Halts s
check_priced-Halts out s ps (some references) = check_all-Halts out references s ps

if-Halts : {s s' : Deviation} (b : Bool) → Halts s s' → Halts s (if b then s else s')
if-Halts {s} true h = same-Halts s
if-Halts false h = h

run_check-Halts :
    (out : Comparison) (s : Deviation) (prices : Option (List OraclePrice))
    → Halts s (run_check out s prices)
unfolding run_check run_deviation_check
run_check-Halts out s none = same-Halts s
run_check-Halts out s (some []) = same-Halts s
run_check-Halts out s (some (p ∷ ps)) = if-Halts s.signing_halted (
    check_priced-Halts out s (p ∷ ps) (get_prices out.to_upper out.fetch_usd (symbols_of (p ∷ ps))))

-- Whatever prices the runs of the worker meet, and whether the requests and the database serve them
-- or not, the signing is halted after them exactly if it was before or one of the rows that they
-- stored is a breach. The table keeps its earlier rows.
pub runs-Halts :
    (s : Deviation) (checks : List (Comparison × Option (List OraclePrice)))
    → Halts s (run_checks s checks)
unfolding run_checks
runs-Halts s [] = same-Halts s
runs-Halts s ((out, prices) ∷ later) =
    then-Halts (run_check-Halts out s prices) (runs-Halts (run_check out s prices) later)
