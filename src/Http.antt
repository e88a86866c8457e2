-- ===== src/Http.antt =====
-- The parts of net/http that the handlers use: what a request holds, and what a handler answers.
use liteploy.Common.{ℕ, Bool, Option, none, some, List, [], ◌∷◌}
use liteploy.Common.Text.{Text}
use liteploy.Common.Table.{Table, get}

-- `form_parses` is false where a handler's call of `ParseForm` fails. A header's name is in its canonical form.
pub record Request : Type 0 where
  pub method : Text
  pub host : Text
  pub path : Text
  pub tls : Bool
  pub headers : Table Text
  pub cookies : Table Text
  pub query : Table Text
  pub path_values : Table Text
  pub form_parses : Bool
  pub form : Table (List Text)
  pub body : Text

pub record Cookie : Type 0 where
  pub name : Text
  pub value : Text
  pub expires : Option ℕ  -- MaxAge in seconds, or none for a cookie that is deleted
  pub http_only : Bool
  pub secure : Bool
  pub same_site_lax : Bool

-- `redirect` is a 302 to a location, `fail` an `http.Error`, `api_fail` a JSON error, `api_ok` a JSON
-- value, `page` a rendered template, `hx_redirect` a redirect for HTMX. `waits` is a request that is
-- not answered before a worker takes a job, `panics` one whose handler panics.
pub data Reply : Type 0 where
  redirect : Text → Reply
  fail api_fail api_ok reply_status : ℕ → Reply
  page hx_redirect : Text → Reply
  waits panics : Reply

pub record Response : Type 0 where
  pub cookies : List Cookie
  pub reply : Reply

abbrev pub answer : Reply → Response
answer reply = record { cookies = []; reply = reply }

abbrev pub text_or_empty : Option Text → Text
text_or_empty none = []
text_or_empty (some t) = t

abbrev pub header : Request → Text → Text
header r name = text_or_empty (get r.headers name)

abbrev pub query_value : Request → Text → Text
query_value r name = text_or_empty (get r.query name)

abbrev pub path_value : Request → Text → Text
path_value r name = text_or_empty (get r.path_values name)

abbrev pub first_or_empty : Option (List Text) → Text
first_or_empty none = []
first_or_empty (some []) = []
first_or_empty (some (t ∷ _)) = t

-- `r.FormValue(name)`
abbrev pub form_value : Request → Text → Text
form_value r name = first_or_empty (get r.form name)
