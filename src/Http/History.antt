-- ===== src/Http/History.antt =====
-- Histories of requests to backend/internal/router: the audit log, the measurements, the reviews and the
-- codes of the routes.
use gb_522_l7o.Prelude.{ℕ, ◌≡◌, true, some, List, get_elem?, All}
use gb_522_l7o.Float.{Float}
use gb_522_l7o.Model.{TraceCapture, EventMarker}
use gb_522_l7o.Database.Extends.{Extends-at}
use gb_522_l7o.Audit.Appended.{Appended, IsAuditEnv, audit_guarantee, audit-Writes}
use gb_522_l7o.Traces.Lasting.{SameTrace, measured, IsTracesEnv, trace_guarantee, trace-Writes}
use gb_522_l7o.Events.Lasting.{Lasts, IsEventEnv, event_guarantee, event-Writes, reviewed_at}
use gb_522_l7o.Routes.Codes.{HaveCodes}
use gb_522_l7o.Routes.Lasting.{IsRouteEnv, code_guarantee, code-Writes}
use gb_522_l7o.Http.{Server}
use gb_522_l7o.Http.Requests.{Request, serve_requests, serve_requests-Kept}

module _ {F : Type 0} ⦃f : Float F⦄ (requests : List (Request F)) (s : Server F) where
  -- The audit log is immutable: whatever requests reach the server, each on a table of the log that
  -- does what it reports and among requests that append to the log alone, the entries there were stand
  -- first, in their order and unchanged in every column, and each entry behind them names its request.
  pub serve_requests-Appended :
      All (λ r. IsAuditEnv r.program.env) requests
      → Appended s.world.audits (serve_requests requests s).world.audits
  serve_requests-Appended laws =
      serve_requests-Kept audit_guarantee IsAuditEnv (λ env h. audit-Writes env h) requests s laws

  -- A measurement is final: whatever requests reach the server, each on a table of traces that does
  -- what it reports and among requests that keep the measurements, a trace stays at its place with its
  -- key, its route, wavelength, pulse width, sample interval, raw samples, times and uploader. The
  -- settings of the detection, the processed samples and the noise floor may change.
  pub serve_requests-measured :
      (i : ℕ) (r : TraceCapture F)
      → All (λ r. IsTracesEnv r.program.env) requests
      → get_elem? s.world.traces i ≡ some r
      → (t : TraceCapture F) × (get_elem? (serve_requests requests s).world.traces i ≡ some t)
        × (measured t ≡ measured r)
  serve_requests-measured i r laws e =
      Extends-at SameTrace s.world.traces (serve_requests requests s).world.traces i
        (serve_requests-Kept trace_guarantee IsTracesEnv trace-Writes requests s laws) e

  -- A reviewed event is never removed nor marked as unreviewed: whatever requests reach the server,
  -- detections anew among them, each on a table of events that does what it reports and among requests
  -- that keep what is reviewed, it is still in the table, still reviewed, with its key, its trace and
  -- the columns that the algorithm filled in. A later review may change its type, its distance, its
  -- note, its reviewer and their time.
  pub serve_requests-reviewed :
      (i : ℕ) (r : EventMarker F)
      → All (λ r. IsEventEnv r.program.env) requests
      → get_elem? s.world.events i ≡ some r
      → r.reviewed ≡ true
      → (j : ℕ) × (t : EventMarker F) × (get_elem? (serve_requests requests s).world.events j
          ≡ some t)
        × Lasts r t
  serve_requests-reviewed i r laws e h =
      reviewed_at i r (serve_requests-Kept event_guarantee IsEventEnv event-Writes requests s laws)
        e h

  -- The codes of the routes stay distinct: whatever requests reach the server, each on a table of
  -- routes that does what it reports and among requests that keep the codes distinct.
  pub serve_requests-HaveCodes :
      All (λ r. IsRouteEnv r.program.env) requests
      → HaveCodes s.world.routes
      → HaveCodes (serve_requests requests s).world.routes
  serve_requests-HaveCodes laws =
      serve_requests-Kept code_guarantee IsRouteEnv code-Writes requests s laws
