-- ===== src/Customer/Registry.antt =====
-- What the customer commands of internal/customer/service.go keep of the table of customers.
use go_blueprint.Prelude.{
  select, ==_iff, ℕ, ◌≡◌, refl, sym, ap, ◌∙◌, inl, inr, Bool, true, false, not, ◌&&◌, ◌||◌, List,
  [], ◌∷◌, ◌++◌, arith, ◌==◌, Bool-cases, Text, text_eq, is_empty,
}
use go_blueprint.Prelude.{text_eq_sym}
use go_blueprint.Prelude.Every.{all}
use go_blueprint.Customer.{Customer}
use go_blueprint.Customer.Repository.{
  CustomerRow, to_row, set_rows, has_id, has_email, email_of_other,
}

-- A row has a name and an e-mail.
abbrev pub is_named : CustomerRow → Bool
is_named r = not (is_empty r.name) && not (is_empty r.email)

-- No id twice, and no e-mail twice.
abbrev pub ids_apart : List CustomerRow → Bool
ids_apart [] = true
ids_apart (r ∷ rows) = not (has_id r.id rows) && ids_apart rows

abbrev pub emails_apart : List CustomerRow → Bool
emails_apart [] = true
emails_apart (r ∷ rows) = not (has_email r.email rows) && emails_apart rows

pub record IsRegistry (rows : List CustomerRow) : Type 0 where
  pub named : all is_named rows ≡ true
  pub ids : ids_apart rows ≡ true
  pub emails : emails_apart rows ≡ true

has_id-append :
    (j : ℕ) (rows : List CustomerRow) (r : CustomerRow)
    → has_id j rows ≡ false
    → (r.id == j) ≡ false
    → has_id j (rows ++ r ∷ []) ≡ false
has_id-append j [] r h k = ground arith
has_id-append j (s ∷ rows) r h k = ground (arith, has_id-append j rows r)

has_email-append :
    (e : Text) (rows : List CustomerRow) (r : CustomerRow)
    → has_email e rows ≡ false
    → text_eq r.email e ≡ false
    → has_email e (rows ++ r ∷ []) ≡ false
has_email-append e [] r h k = ground arith
has_email-append e (s ∷ rows) r h k = ground (arith, has_email-append e rows r)

append-named :
    (rows : List CustomerRow) (r : CustomerRow)
    → all is_named rows ≡ true
    → is_named r ≡ true
    → all is_named (rows ++ r ∷ []) ≡ true
append-named [] r h k = ground arith
append-named (s ∷ rows) r h k = ground (arith, append-named rows r)

append-ids :
    (rows : List CustomerRow) (r : CustomerRow)
    → ids_apart rows ≡ true
    → has_id r.id rows ≡ false
    → ids_apart (rows ++ r ∷ []) ≡ true
append-ids [] r h k = refl
append-ids (s ∷ rows) r h k = ground (arith, append-ids rows r, has_id-append s.id rows r)

append-emails :
    (rows : List CustomerRow) (r : CustomerRow)
    → emails_apart rows ≡ true
    → has_email r.email rows ≡ false
    → emails_apart (rows ++ r ∷ []) ≡ true
append-emails [] r h k = refl
append-emails (s ∷ rows) r h k =
    ground
      (arith, append-emails rows r, has_email-append s.email rows r, text_eq_sym s.email r.email)

pub append-IsRegistry :
    (rows : List CustomerRow) (r : CustomerRow)
    → IsRegistry rows
    → is_named r ≡ true
    → (has_id r.id rows || has_email r.email rows) ≡ false
    → IsRegistry (rows ++ r ∷ [])
append-IsRegistry rows r v named new = record {
  named = append-named rows r v.named named;
  ids = append-ids rows r v.ids (ground (arith, new));
  emails = append-emails rows r v.emails (ground (arith, new));
}

module _ (c : Customer) where
  has_id-set : (j : ℕ) (rows : List CustomerRow) → has_id j (set_rows c rows) ≡ has_id j rows
  unfolding set_rows
  has_id-set j [] = refl
  has_id-set j (r ∷ rows) = ground (arith, has_id-set j rows)

  set-ids : (rows : List CustomerRow) → ids_apart (set_rows c rows) ≡ ids_apart rows
  unfolding set_rows
  set-ids [] = refl
  set-ids (r ∷ rows) = ground (arith, set-ids rows, has_id-set r.id rows)

  set-named :
      (rows : List CustomerRow)
      → all is_named rows ≡ true
      → is_named (to_row c) ≡ true
      → all is_named (set_rows c rows) ≡ true
  unfolding set_rows
  set-named [] h k = refl
  set-named (r ∷ rows) h k = ground (arith, set-named rows)

  has_email-set :
      (e : Text) (rows : List CustomerRow)
      → has_email e rows ≡ false
      → text_eq c.email e ≡ false
      → has_email e (set_rows c rows) ≡ false
  unfolding set_rows
  has_email-set e [] h k = refl
  has_email-set e (r ∷ rows) h k = ground (arith, has_email-set e rows)

  -- Without a row of the id, nothing is set, and an e-mail of no other row is one of no row.
  unset : (rows : List CustomerRow) → has_id c.id rows ≡ false → set_rows c rows ≡ rows
  unfolding set_rows
  unset [] h = refl
  unset (r ∷ rows) h = ground (arith, unset rows)

  nobody :
      (rows : List CustomerRow)
      → has_id c.id rows ≡ false
      → email_of_other c.id c.email rows ≡ false
      → has_email c.email rows ≡ false
  nobody [] h k = refl
  nobody (r ∷ rows) h k = ground (arith, nobody rows)

  set-emails :
      (rows : List CustomerRow)
      → ids_apart rows ≡ true
      → emails_apart rows ≡ true
      → email_of_other c.id c.email rows ≡ false
      → emails_apart (set_rows c rows) ≡ true
  unfolding set_rows
  set-emails [] h k m = refl
  set-emails (r ∷ rows) h k m = elim (Bool-cases (r.id == c.id)) [
    | inl hit ↦
        let same : r.id ≡ c.id = (==_iff r.id c.id).0 hit in
        let absent : has_id c.id rows ≡ false =
          ap (λ j. has_id j rows) (sym same) ∙ ground (arith, h) in
        let free : has_email c.email rows ≡ false = nobody rows absent (ground (arith, m)) in
        rw (hit, set_rows, unset rows absent) (ground (arith, free, k))
    | inr miss ↦
        ground
          (arith, miss, set-emails rows, has_email-set r.email rows, text_eq_sym r.email c.email)
  ]

  pub set-IsRegistry :
      (rows : List CustomerRow)
      → IsRegistry rows
      → is_named (to_row c) ≡ true
      → email_of_other c.id c.email rows ≡ false
      → IsRegistry (set_rows c rows)
  set-IsRegistry rows v named apart = record {
    named = set-named rows v.named named;
    ids = set-ids rows ∙ v.ids;
    emails = set-emails rows v.ids v.emails apart;
  }

module _ (p : CustomerRow → Bool) where
  has_id-select :
      (j : ℕ) (rows : List CustomerRow) → has_id j rows ≡ false → has_id j (select p rows) ≡ false
  has_id-select j [] h = refl
  has_id-select j (r ∷ rows) h = ground (arith, has_id-select j rows)

  has_email-select :
      (e : Text) (rows : List CustomerRow)
      → has_email e rows ≡ false
      → has_email e (select p rows) ≡ false
  has_email-select e [] h = refl
  has_email-select e (r ∷ rows) h = ground (arith, has_email-select e rows)

  pub select-IsRegistry : (rows : List CustomerRow) → IsRegistry rows → IsRegistry (select p rows)
  select-IsRegistry [] v = v
  select-IsRegistry (r ∷ rows) v =
      let rest = select-IsRegistry rows (record {
        named = ground (arith, v.named);
        ids = ground (arith, v.ids);
        emails = ground (arith, v.emails);
      }) in
      record {
        named = ground (arith, v.named, rest.named);
        ids = ground (arith, v.ids, rest.ids, has_id-select r.id rows);
        emails = ground (arith, v.emails, rest.emails, has_email-select r.email rows);
      }
