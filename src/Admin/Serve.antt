-- ===== src/Admin/Serve.antt =====
-- `handle`, `route_timeframe`, `route_static` and `write_response` of crates/waf-proxy/src/admin.rs. The stream of
-- `/api/stream` is an answer without an end: the child Stream of Admin models its frames.
use t1_waf.Prelude.{
  Text, text, decimal, text_beq, nat_eq, text_eq, or_else, ◌==◌, if◌then◌else◌, ℕ, ◌/◌, min, ◌⊎◌,
  Bool, ◌&&◌, ◌||◌, not, Option, none, some, [], ◌∷◌, ◌++◌,
}
use t1_waf.Prelude.Assoc.{lookup}
use t1_waf.Strings.{starts_with}
use t1_waf.Events.{recent}
use t1_waf.Storage.Writer.{Database}
use t1_waf.Storage.Query.{query_readonly, series_readonly}
use t1_waf.Engine.{Env}
use t1_waf.Admin.{ParsedReq, auth_ok, parse_range, number_of}
use t1_waf.Admin.Patch.{Patch}
use t1_waf.Admin.Routes.{
  Site, Response, asset, events_body, series_body, ok_json, not_found_of, unauthorized_of,
  route_api, calls,
}

-- how `handle` ends: with an answer, or with the stream
pub data Reply : Type 0 where
  answer : Response → Reply
  stream : Reply

unfoldable pub is_page : Text → Bool
is_page p =
    text_beq p (text "/")
    || (text_beq p (text "/index.html")
        || (text_beq p (text "/firewall")
            || (text_beq p (text "/traffic") || text_beq p (text "/settings"))))

-- `route_static`
unfoldable pub route_static : ParsedReq → Response
route_static req =
    if not (text_beq req.method (text "GET"))
    then not_found_of
    else if calls req (text "/healthz")
    then record { status = 200; ctype = text "text/plain"; body = asset (text "ok") }
    else if is_page req.path
    then record {
      status = 200;
      ctype = text "text/html; charset=utf-8";
      body = asset (text "DASHBOARD_HTML");
    }
    else if calls req (text "/static/dashboard.js")
    then record {
      status = 200;
      ctype = text "application/javascript; charset=utf-8";
      body = asset (text "DASHBOARD_JS");
    }
    else if calls req (text "/static/dashboard.css")
    then record {
      status = 200;
      ctype = text "text/css; charset=utf-8";
      body = asset (text "DASHBOARD_CSS");
    }
    else not_found_of

-- `reason`
unfoldable pub reason : ℕ → Text
reason code =
    if code == 201
    then text "Created"
    else if code == 204
    then text "No Content"
    else if code == 301
    then text "Moved Permanently"
    else if code == 400
    then text "Bad Request"
    else if code == 401
    then text "Unauthorized"
    else if code == 403
    then text "Forbidden"
    else if code == 404
    then text "Not Found"
    else if code == 405
    then text "Method Not Allowed"
    else if code == 500
    then text "Internal Server Error"
    else text "OK"

abbrev line : Text → Text
line s = s ++ (13 ∷ 10 ∷ [])

-- the head that `write_response` writes, with the length of the body
unfoldable pub response_head : ℕ → Text → ℕ → Text
response_head status ctype len =
    line (text "HTTP/1.1 " ++ (decimal status ++ (text " " ++ reason status)))
    ++ (line (text "content-type: " ++ ctype)
        ++ (line (text "content-length: " ++ decimal len)
            ++ (line (text "cache-control: no-store")
                ++ (line (text "x-content-type-options: nosniff")
                    ++ (line (text "connection: close") ++ line [])))))

module _ (env : Env) (parse_patch : Text → Text ⊎ Patch) (base : Database) where
  -- `route_timeframe`, with the store if it is open
  unfoldable pub route_timeframe : Site env parse_patch → Option base.Db → ParsedReq → ℕ → Response
  route_timeframe s store req now_ms =
      let span = parse_range req.query now_ms in
      let limit = min (or_else (number_of (lookup (text "limit") req.query)) 500) 5000 in
      let log = s.proxy.engine.events in
      if calls req (text "/api/events/range")
      then ok_json (
          events_body (elim store [
            | none ↦ recent log limit
            | some d ↦ or_else (query_readonly base d span.0 span.1 limit) (recent log limit)
          ]))
      else ok_json (
          series_body
            (elim store [ none ↦ [] | some d ↦ or_else (series_readonly base d span.0 span.1) [] ]))

  -- `handle`, once the request is read
  unfoldable pub handle :
      Site env parse_patch → Option base.Db → ParsedReq → ℕ → Site env parse_patch × Reply
  handle s store req now_ms =
      let ok = auth_ok req s.proxy.engine.runtime.auth_token in
      let get = text_beq req.method (text "GET") in
      if calls req (text "/api/stream") && get
      then (if ok then (s, stream) else (s, answer unauthorized_of))
      else if (calls req (text "/api/events/range") || calls req (text "/api/events/series")) && get
      then (if ok
          then (s, answer (route_timeframe s store req now_ms))
          else (s, answer unauthorized_of))
      else if starts_with req.path (text "/api/")
      then (if ok
          then (let (s', r) = route_api env parse_patch s req (now_ms / 1000) in (s', answer r))
          else (s, answer unauthorized_of))
      else (s, answer (route_static req))
