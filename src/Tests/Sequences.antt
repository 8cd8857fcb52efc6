-- ===== src/Tests/Sequences.antt =====
-- Runs of several calls, one after the other, on the database in memory.
use gb_522_l7o.Prelude.{arith, false, zero, suc, ◌≡◌, ◌≢◌, refl, ◌&&◌, some, ◌==◌}
use gb_522_l7o.Errors.{Result, ok}
use gb_522_l7o.Constants.{analyzing, draft, pending_review, confirmed}
use gb_522_l7o.Float.Fixed.{Fixed, fixed, fixed_float}
use gb_522_l7o.Model.{FiberRoute, LocalizationCase}
use gb_522_l7o.Database.{World, ◌>>=◌, pure, on_error, yield_to_others, transaction}
use gb_522_l7o.Audit.{audit, create_audit, is_blank}
use gb_522_l7o.Cases.Repository
use gb_522_l7o.Cases.Repository.{belongs_to_route}
use gb_522_l7o.Cases.Rows.{RowsEvolve-refl}
use gb_522_l7o.Cases.Repository.{advance, expired}
use gb_522_l7o.Cases.Keeps.{touch_case}
use gb_522_l7o.Cases.Service.{AnalyzeCaseRequest, load_case, analyze}
use gb_522_l7o.Cases.Released.{IsWorking, HasMoved, analyze-releases}
use gb_522_l7o.Cases.Locking.{IsKeyed, transition-locks}
use gb_522_l7o.Routes.Repository as RouteRepository
use gb_522_l7o.Routes.Service.{CreateRouteRequest, load_route, set_baseline}
use gb_522_l7o.Routes.Baseline.{asked_in, set_baseline-belongs}
use gb_522_l7o.Tests.Store.{store, store-IsCaseEnv}
use gb_522_l7o.Tests.Workflow.{world_with, reviewer, route, case_in, pending, item_of}

-- The first of two confirmations of the same version.
abbrev taken : World Fixed
taken = (Repository.transition store 5 3 pending_review confirmed (λ c. c) pending).1

first_done : (Repository.transition store 5 3 pending_review confirmed (λ c. c) pending).0 ≡ ok tt
unfolding Repository.transition
first_done = refl

taken-IsKeyed : IsKeyed taken.cases
unfolding Repository.transition
taken-IsKeyed zero zero r s p q e = refl
taken-IsKeyed zero (suc j) r s p q e = cc
taken-IsKeyed (suc i) j r s p q e = cc

transition-locks_example :
    (Repository.transition store 5 3 pending_review confirmed (λ c. c) taken).0 ≢ ok tt
transition-locks_example =
    transition-locks store 5 3 pending_review confirmed pending_review confirmed (λ c. c) (λ c. c)
      pending taken store-IsCaseEnv (λ c. (refl, refl, refl, refl, refl)) first_done
      (RowsEvolve-refl taken.cases) taken-IsKeyed

-- A new route, with a space before its code.
abbrev pub route_request : CreateRouteRequest Fixed
route_request = record {
  route_code = " R2";
  name = "Spur";
  length_m = fixed 900 0;
  refractive_index = fixed 1468 3;
  launch_connector = "LC";
  route_status = "";
}

abbrev baseline_set : Result (FiberRoute Fixed)
baseline_set = (set_baseline store (λ c. c) 1 2 reviewer pending).0

baseline_done : baseline_set ≡ ok (item_of route baseline_set)
unfolding set_baseline load_route ◌>>=◌ pure on_error yield_to_others transaction
    RouteRepository.get RouteRepository.set_baseline belongs_to_route create_audit audit is_blank
baseline_done = refl

set_baseline-belongs_example :
    (store.traces.count
        (asked_in store (λ c. c) 1 pending).clock
        (λ t. t.id == 2 && t.route_id == 1)
        (asked_in store (λ c. c) 1 pending).traces
      ≡ ok 1)
    × ((read : FiberRoute Fixed) × ((load_route store (λ c. c) 1 pending).0 ≡ ok read)
        × (item_of route baseline_set ≡ record read { baseline_trace_id = some 2 }))
set_baseline-belongs_example =
    set_baseline-belongs store (λ c. c) 1 2 reviewer pending (item_of route baseline_set)
      baseline_done

-- A case that has been analyzing since the start, after twelve minutes.
abbrev left_case : LocalizationCase Fixed
left_case = case_in analyzing 2

abbrev late : World Fixed
late = record (world_with left_case) { clock = 720_000_000_000 }

abbrev analyze_request : AnalyzeCaseRequest Fixed
analyze_request = record { distance_tolerance_m = fixed 0 0; loss_increase_db = fixed 0 0 }

store-IsWorking : IsWorking store 720_000_000_002
store-IsWorking = record {
  updates = λ p g rows. (_, _, refl);
  logs = λ entry rows. (_, _, refl);
  commits = refl;
}

left_loaded : (load_case store 5 late).0 ≡ ok left_case
unfolding load_case ◌>>=◌ on_error yield_to_others Repository.get
left_loaded = refl

reviewer_named : is_blank reviewer.request_id ≡ false
unfolding is_blank
reviewer_named = refl

analyze-releases_example :
    HasMoved 0
      (touch_case 720_000_000_002 (advance draft expired left_case))
      (analyze store 5 analyze_request reviewer late).1
unfolding load_case ◌>>=◌ on_error yield_to_others Repository.get
analyze-releases_example =
    analyze-releases store store-IsCaseEnv 5 0 left_case left_case analyze_request reviewer late
      left_loaded refl store-IsWorking
      (record { present = refl; keyed = refl; held = refl; left = omega arith }) reviewer_named
