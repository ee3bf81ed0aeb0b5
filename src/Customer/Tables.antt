-- ===== src/Customer/Tables.antt =====
-- What the statements of the customer repository do when they succeed.
use go_blueprint.Customer.{Customer}
use go_blueprint.Customer.Repository.{
  find_by_id, email_of_other, has_email, has_id, to_row, set_rows, on_connection, update_customer,
  delete_customer, create_customer, save_tx, delete_tx, update_tx, CustomerRow,
}
use go_blueprint.Prelude.{
  none, ◌∙◌, ap, Option-cases, arith, Option, some, find, select, ℕ, ◌≡◌, refl, sym, inl, inr, true,
  false, not, ◌||◌, List, [], ◌∷◌, ◌++◌, ◌==◌, Bool-cases, Text, codes,
}
use go_blueprint.Errors.{Error, done, lost, refused, err, ok, ◌>>=◌, within, Fate, Result}

-- Inversion of a successful chain.
pub within_ok {ℓ} :
    {A : Type ℓ} (context : Text) (r : Result A) {a : A} → within context r ≡ ok a → r ≡ ok a
within_ok context (ok b) h = h
within_ok context (err e) h = cc

pub bind_ok {ℓ κ} :
    {B : Type ℓ} {C : Type κ} (first : Result B) (next : B → Result C) {last : C}
    → first >>= next ≡ ok last
    → (between : B) × (first ≡ ok between) × (next between ≡ ok last)
bind_ok (ok between) next h = (between, refl, h)
bind_ok (err e) next h = cc

connected {ℓ} :
    {A : Type ℓ} (fate : Fate) (r : Result A) {a : A} → on_connection fate r ≡ ok a → r ≡ ok a
connected done r h = h
connected (refused e) r h = cc
connected (lost e) r h = cc

ok_inj {ℓ} : {A : Type ℓ} {a b : A} → ◌≡◌ {A = Result A} (ok a) (ok b) → a ≡ b
ok_inj h = cc h

pub save_tx_ok :
    (fate : Fate) (rows : List CustomerRow) (c : Customer) {rows' : List CustomerRow}
    → save_tx fate rows c ≡ ok rows'
    → (rows' ≡ rows ++ to_row c ∷ []) × ((has_id c.id rows || has_email c.email rows) ≡ false)
unfolding save_tx create_customer
save_tx_ok fate rows c h =
    let made = connected fate _ (within_ok (codes "postgres.CustomerRepository.SaveTx") _ h) in
    elim (Bool-cases (has_id c.id rows || has_email c.email rows)) [
      | inl dup ↦ cc (rw (dup, create_customer) at made)
      | inr new ↦ (sym (ok_inj (rw (new, create_customer) at made)), new)
    ]

pub update_tx_ok :
    (fate : Fate) (rows : List CustomerRow) (c : Customer) {rows' : List CustomerRow}
    → update_tx fate rows c ≡ ok rows'
    → (rows' ≡ set_rows c rows)
      × (has_id c.id rows ≡ true)
      × (email_of_other c.id c.email rows ≡ false)
unfolding update_tx update_customer
update_tx_ok fate rows c h =
    let made = connected fate _ (within_ok (codes "postgres.CustomerRepository.UpdateTx") _ h) in
    elim (Bool-cases (has_id c.id rows)) [
      | inl known ↦ elim (Bool-cases (email_of_other c.id c.email rows)) [
        | inl dup ↦ cc (rw (known, dup, update_customer) at made)
        | inr new ↦ (sym (ok_inj (rw (known, new, update_customer) at made)), known, new)
      ]
      | inr missing ↦ cc (rw (missing, update_customer) at made)
    ]

pub delete_tx_ok :
    (fate : Fate) (rows : List CustomerRow) (id : ℕ) {rows' : List CustomerRow}
    → delete_tx fate rows id ≡ ok rows'
    → rows' ≡ select (λ r. not (r.id == id)) rows
unfolding delete_tx delete_customer
delete_tx_ok fate rows id h =
    sym (ok_inj (connected fate _ (within_ok (codes "postgres.CustomerRepository.DeleteTx") _ h)))

-- A customer that is found by its id has that id.
find_has_id :
    (rows : List CustomerRow) (id : ℕ) (r : CustomerRow)
    → find (λ s. s.id == id) rows ≡ some r
    → r.id ≡ id
find_has_id [] id r h = ground arith
find_has_id (s ∷ rows) id r h = ground (arith, find_has_id rows id r)

find_any :
    (id : ℕ) (rows : List CustomerRow) (r : CustomerRow)
    → find (λ r. r.id == id) rows ≡ some r
    → has_id id rows ≡ true
find_any id [] r h = cc h
find_any id (s ∷ rows) r h = elim (Bool-cases (s.id == id)) [
  | inl hit ↦ rw hit refl
  | inr miss ↦ rw miss (find_any id rows r (rw miss at h))
]

-- FindByID answers only for an id that has a row.
pub find_by_id_has :
    (failure : Option Error) (rows : List CustomerRow) (id : ℕ) {c : Customer}
    → find_by_id failure rows id ≡ ok c
    → has_id id rows ≡ true
unfolding find_by_id
find_by_id_has (some e) rows id h = ground arith
find_by_id_has none rows id h = elim (Option-cases (find (λ r. r.id == id) rows)) [
  | inl missing ↦ cc (rw (missing, find_by_id) at h)
  | inr (r, found) ↦ find_any id rows r found
]

pub find_by_id_ok :
    (failure : Option Error) (rows : List CustomerRow) (id : ℕ) {c : Customer}
    → find_by_id failure rows id ≡ ok c
    → c.id ≡ id
unfolding find_by_id
find_by_id_ok (some e) rows id h = ground arith
find_by_id_ok none rows id h = elim (Option-cases (find (λ r. r.id == id) rows)) [
  | inl missing ↦ cc (rw (missing, find_by_id) at h)
  | inr (r, found) ↦
      ap (λ c. c.id) (sym (ok_inj (rw (found, find_by_id) at h))) ∙ find_has_id rows id r found
]
