-- ===== src/Control/Bound.antt =====
-- custom_components/doorfast/station_control.py: validated replies and error codes.
use doorfastforha.Prelude.{
  ◌≡◌, refl, String, true, List, Option, none, some, contains, string_eq, eq_iff, arith,
  >>=-eq-some, >>-eq-some, ◌∙◌, subst, some_inj, if_cases,
}
use doorfastforha.Value.{Value, dict, Fields, end, field, get, has, as_dict}
use doorfastforha.SessionDiagnostics.{station_call_errors}
use doorfastforha.Control.{
  reply_keys, restrict, is_reply, validate_reply, admission_error, stable_error,
}

module _ (keys : List String) where
  get-restrict :
      (d : Fields) (k : String) → contains k keys ≡ true → get (restrict keys d) k ≡ get d k
  get-restrict end k h = refl
  get-restrict (field j v d) k h = ground (arith, get-restrict d k, eq_iff j k)

  has-restrict :
      (d : Fields) (k : String) → contains k keys ≡ true → has (restrict keys d) k ≡ has d k
  has-restrict end k h = refl
  has-restrict (field j v d) k h = ground (arith, has-restrict d k, eq_iff j k)

  restrict_idem : (d : Fields) → restrict keys (restrict keys d) ≡ restrict keys d
  restrict_idem end = refl
  restrict_idem (field j v d) = ground (arith, restrict_idem d)

is_reply-restrict :
    (d : Fields) (runtime station : String)
    → is_reply (restrict reply_keys d) runtime station ≡ is_reply d runtime station
unfolding is_reply
is_reply-restrict d runtime station = rw (
  get-restrict reply_keys d "runtime_id" refl,
  get-restrict reply_keys d "station_id" refl,
  get-restrict reply_keys d "generation" refl,
  get-restrict reply_keys d "operation_id" refl,
  get-restrict reply_keys d "state" refl,
  get-restrict reply_keys d "queued" refl,
  has-restrict reply_keys d "runtime_id" refl,
  has-restrict reply_keys d "station_id" refl,
  has-restrict reply_keys d "generation" refl,
  has-restrict reply_keys d "operation_id" refl,
  has-restrict reply_keys d "state" refl,
  has-restrict reply_keys d "queued" refl,
)

-- What `validate_reply` returns passes all its tests itself, and comes back unchanged.
pub validate_reply_idem :
    (reply : Value) (runtime station : String) (d : Fields)
    → validate_reply reply runtime station ≡ some d
    → (is_reply d runtime station ≡ true) × (validate_reply (dict d) runtime station ≡ some d)
unfolding validate_reply
validate_reply_idem reply runtime station d h =
    let (e, _, h1) = >>=-eq-some (as_dict reply) _ h in
    let (ok, h2) = >>-eq-some (is_reply e runtime station) (some (restrict reply_keys e)) h1 in
    let same : restrict reply_keys e ≡ d = some_inj h2 in
    let good : is_reply d runtime station ≡ true =
      subst (λ x. is_reply x runtime station ≡ true) same
        (is_reply-restrict e runtime station ∙ ok) in
    let fixed : restrict reply_keys d ≡ d =
      subst (λ x. restrict reply_keys x ≡ x) same (restrict_idem reply_keys e) in
    (good, rw (good, fixed) refl)

-- Whatever the error, its stable code is one of the published ones.
stable_error_listed :
    (code : Option String) → contains (stable_error code) station_call_errors ≡ true
unfolding stable_error
stable_error_listed none = refl
stable_error_listed (some code) =
    if_cases (λ c. contains c station_call_errors ≡ true)
      (contains (admission_error code) station_call_errors) (λ known. known) (λ _. refl)
