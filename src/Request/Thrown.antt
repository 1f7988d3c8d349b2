-- ===== src/Request/Thrown.antt =====
-- What a client receives of an error that a method throws.
use hfw.Base.{Bool, false, ◌||◌, List, [], ◌∷◌, ◌≡◌, refl, ◌∙◌, ◌⊎◌, inl, if◌then◌else◌}
use hfw.Base.Text.{Text}
use hfw.Base.Int.{ℤ}
use hfw.Session.{SessionStore, SessionConfig}
use hfw.Context.{HttpContext, Results, Body, response, Page, Outcome, returned, Panic, final}
use hfw.Context.Errors.{ErrorConfig, ErrorMap, Value, throw_check, check_err, is_nil_value, is_zero}
use hfw.Context.Errors.Code.{throw_check-check_err}
use hfw.Context.Output.{opened_page}
use hfw.Context.Controller.{init, before, after}
use hfw.Context.Answer.{IsBlank}
use hfw.Request.{serve}
use hfw.Request.Served.{embedding, init_returns, finish_renders}
use hfw.Request.Lifecycle.{after_stop}
use hfw.Request.Json.{
  IsJson, with_error, with_trace_id, opened_page_json, render_json, json_written,
}

-- The two fields of a context that a thrown error sets.
abbrev set_error : {S : Type 0} → Page S → ℤ × Text → Page S
set_error p e = record p { ctx = record (p.ctx) { err_no = e.0; err_msg = e.1 } }

same_error :
    (bodies : List (Bool × Body)) (zipped : Bool) (results : Results) (n n' : ℤ) (m m' : Text)
    → n ≡ n'
    → m ≡ m'
    → bodies ≡ (zipped, response n m results) ∷ []
    → bodies ≡ (zipped, response n' m' results) ∷ []
same_error bodies zipped results n n' m m' h k e = cc

when_real : {A : Type 0} {test : Bool} (x y : A) → test ≡ false → (if test then x else y) ≡ y
when_real x y h = rw h refl

module _ {S : Type 0} (store : SessionStore S) (session_enabled : Bool)
    (find_template : HttpContext → Text ⊎ Panic) where
  -- An error that a method throws, of a controller that embeds Controller, is what the client reads:
  -- where the response is a JSON one with error and results, its connection is not hijacked or
  -- upgraded, its renderer not closed, nothing has been written and no redirection or coding set, the
  -- number and the message in its one body are those that CheckErr returns for the same error.
  pub thrown_action :
      (config : SessionConfig) (errors : ErrorConfig) (error_map : ErrorMap) (uuid : Text)
      (action : Text → Page S → Outcome (Page S)) (name : Text) (p p' : Page S) (err_no : ℤ)
      (i : Value)
      → is_nil_value i || is_zero err_no ≡ false
      → action name (final (init store config errors error_map session_enabled uuid p))
        ≡ throw_check errors error_map err_no i p'
      → IsBlank p'.writer
      → IsJson p'.ctx
      → p'.ctx.request.is_upgrade ≡ false
      → (q : Page S) × (zipped : Bool) × (results : Results) × (serve
            (embedding store config errors error_map session_enabled uuid find_template action)
            name
            p
          ≡ returned q)
        × (q.writer.body
            ≡ (
              zipped,
              response
                  (check_err errors error_map err_no i p').0.0
                  (check_err errors error_map err_no i p').0.1
                  results,
            )
              ∷ [])
  unfolding before after check_err with_trace_id
  thrown_action config errors error_map uuid action name p p' err_no i real thrown blank j upgrade =
      let t = set_error p' (check_err errors error_map err_no i p').0 in
      let j' : IsJson t.ctx = with_error p'.ctx _ _ j in
      let o = opened_page_json store session_enabled find_template t j' blank in
      let (zipped, results, written) =
        json_written store session_enabled find_template
          (opened_page store session_enabled find_template t) o.json o.body in
      (
        _,
        zipped,
        results,
        after_stop _ name p _
              (init_returns store config errors error_map session_enabled uuid find_template p) _ t
              t refl
              (inl
                (thrown ∙ throw_check-check_err errors error_map err_no i p' ∙ when_real _ _ real))
              refl
            ∙ finish_renders store config errors error_map session_enabled uuid find_template t
                upgrade
            ∙ render_json store session_enabled find_template t j' blank,
        same_error _ _ _ _ _ _ _ o.err_no o.err_msg written,
      )
