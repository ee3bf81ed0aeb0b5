-- ===== src/Customer/Domain.antt =====
-- internal/customer/domain.go. `fold` is the case table of package `unicode` above ASCII; the clock
-- readings and the new id are arguments, in the order in which the code asks for them.
use go_blueprint.Customer.{Customer}
use go_blueprint.Prelude.{is_empty, trim_space, to_lower, ℕ, ltb, if◌then◌else◌, Text, codes}
use go_blueprint.Errors.{
  ◌>>◌, ok, customer_email_required, customer_name_required, invalid_birth_date, sentinel, wrap,
  err, Result,
}

unfoldable pub validate_name : Text → Result (Unit {0})
validate_name name =
    if is_empty (trim_space name)
    then err (wrap (codes "customer.validateName") (sentinel customer_name_required))
    else ok tt

unfoldable pub validate_email : Text → Result (Unit {0})
validate_email email =
    if is_empty (trim_space email)
    then err (wrap (codes "customer.validateEmail") (sentinel customer_email_required))
    else ok tt

unfoldable pub validate_birth_date : ℕ → ℕ → Result (Unit {0})
validate_birth_date now birth_date =
    if ltb now birth_date
    then err (wrap (codes "customer.validateBirthDate") (sentinel invalid_birth_date))
    else ok tt

-- strings.ToLower(strings.TrimSpace(email)).
abbrev pub normal_email : (ℕ → ℕ) → Text → Text
normal_email fold email = to_lower fold (trim_space email)

module _ (fold : ℕ → ℕ) where
  -- New.
  unfoldable pub new : ℕ → ℕ → ℕ → Text → Text → ℕ → Result Customer
  unfolding validate_name validate_email validate_birth_date
  new checked_at now id name email birth_date = do
    validate_name name
    validate_email email
    validate_birth_date checked_at birth_date
    ok (record {
      id = id;
      name = trim_space name;
      email = normal_email fold email;
      birth_date = birth_date;
      created_at = now;
      updated_at = now;
    })

  -- Customer.Update; an error leaves the customer as it was.
  unfoldable pub update : ℕ → ℕ → Customer → Text → Text → ℕ → Result Customer
  unfolding validate_name validate_email validate_birth_date
  update checked_at now c name email birth_date = do
    validate_name name
    validate_email email
    validate_birth_date checked_at birth_date
    ok (record c {
      name = trim_space name;
      email = normal_email fold email;
      birth_date = birth_date;
      updated_at = now;
    })
