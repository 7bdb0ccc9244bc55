-- ===== src/Server/Options.antt =====
-- internal/server/http_option.go: the options of NewHTTPServer, and what it makes of them. A handler
-- that is nil is none.
use thrust_oauth2id_server.Prelude.{
  ◌≡◌, refl, Bool, false, Option, none, some, List, [], ◌∷◌, ◌++◌, if◌then◌else◌,
}

pub record HttpOptions (H : Type 0) : Type 0 where
  pub is_prod : Bool
  pub handler : Option H

pub data GinMode : Type 0 where
  release debug : GinMode

abbrev pub HttpOption : Type 0 → Type 0
HttpOption H = HttpOptions H → HttpOptions H

module _ {H : Type 0} where
  unfoldable pub default_http_options : HttpOptions H
  default_http_options = record { is_prod = false; handler = none }

  unfoldable pub apply : List (HttpOption H) → HttpOptions H → HttpOptions H
  apply [] o = o
  apply (opt ∷ opts) o = apply opts (opt o)

  unfoldable pub with_http_is_prod : Bool → HttpOption H
  with_http_is_prod is_prod o = record o { is_prod = is_prod }

  unfoldable pub with_http_handler : Option H → HttpOption H
  with_http_handler handler o = record o { handler = handler }

  unfoldable pub gin_mode : HttpOptions H → GinMode
  gin_mode o = if o.is_prod then release else debug

  abbrev pub handler_or : Option H → H → H
  handler_or none router = router
  handler_or (some h) router = h

  -- The handler that Wrap is given: an injected one, or NewRouter's.
  unfoldable pub app_handler : List (HttpOption H) → H → GinMode × H
  unfolding apply gin_mode default_http_options
  app_handler opts router =
      let o = apply opts default_http_options in (gin_mode o, handler_or o.handler router)

  apply-append :
      (opts more : List (HttpOption H)) (o : HttpOptions H)
      → apply (opts ++ more) o ≡ apply more (apply opts o)
  unfolding apply
  apply-append [] more o = refl
  apply-append (opt ∷ opts) more o = apply-append opts more (opt o)

  -- The last options decide, whatever stands before them.
  pub app_handler_last :
      (opts : List (HttpOption H)) (is_prod : Bool) (h router : H)
      → app_handler (opts ++ (with_http_is_prod is_prod ∷ with_http_handler (some h) ∷ [])) router
        ≡ (if is_prod then release else debug, h)
  unfolding app_handler with_http_is_prod with_http_handler
  app_handler_last opts is_prod h router = rw apply-append refl
