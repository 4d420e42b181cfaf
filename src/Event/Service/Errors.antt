-- ===== src/Event/Service/Errors.antt =====
-- Which errors a client may retry (applyErr and its helpers in internal/event/event_service.go).
use prappser_spaces.Base.{
  String, Bool, true, false, not, ◌&&◌, ◌||◌, [], ◌∷◌, ◌==◌, any, if◌then◌else◌,
}
use prappser_spaces.Result.{
  Mark, Error, unappliable, bad_conn, conn_done, eof, unexpected_eof, net, canceled, deadline, pq,
  is_validation, is_unappliable,
}

-- The errors of a connection that is lost or a call that is cut short.
abbrev pub is_cut : Mark → Bool
is_cut bad_conn = true
is_cut conn_done = true
is_cut eof = true
is_cut unexpected_eof = true
is_cut net = true
is_cut canceled = true
is_cut deadline = true
is_cut _ = false

transient_code : String → String → Bool
transient_code class code =
    class == "08"
    || class == "53"
    || class == "57"
    || (code == "40001" || code == "40P01" || code == "55P03")

data_code : String → String → String → Bool
data_code class code constraint =
    (class == "22" || class == "23") && (not (code == "23505") || not (constraint == "events_pkey"))

-- The test of the first *pq.Error that errors.As finds.
first_pq : (String → String → String → Bool) → Error → Bool
first_pq test [] = false
first_pq test (pq class code constraint ∷ e) = test class code constraint
first_pq test (_ ∷ e) = first_pq test e

unfoldable pub is_transient : Error → Bool
unfolding transient_code first_pq
is_transient e = any is_cut e || first_pq (λ class code constraint. transient_code class code) e

unfoldable pub is_data_err : Error → Bool
unfolding data_code first_pq
is_data_err e = first_pq data_code e

-- applyErr, of an error that is not nil
unfoldable pub apply_err : Error → Error
apply_err e =
    if any is_unappliable e || is_transient e
    then e
    else if any is_validation e || is_data_err e
    then unappliable ∷ e
    else e
