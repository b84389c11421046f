-- ===== src/Accounts/Registering.antt =====
-- `register` of auth.py: emails and phones belong to one account each.
use rental_property.Base.{
  ℕ, ◌≤◌, ◌≡◌, inl, inr, refl, true, none, some, List, [], ◌∷◌, ◌++◌, arith, by_option, Bool-cases,
  first, count, count-append,
}
use rental_property.Text.{Str, strip, str_eq_iff}
use rental_property.Models.{User, UserRole, same_role}
use rental_property.Action.{World, Error, ok, err, Ensures, Ensures-cases}
use rental_property.Accounts.Security.{PasswordHash, verify_password, verify_password-hash}
use rental_property.Accounts.Defs.{
  RegisterRequest, register_role, is_text, normalize_email, is_duplicate, clashes, insert_user,
  add_profile, create_user, register,
}

abbrev pub AccountsUnique : List User → Type 0
AccountsUnique us =
    ((e : Str) → count (λ u. is_text u.email e) us ≤ 1)
    × ((p : Str) → count (λ u. is_text u.phone p) us ≤ 1)

clashes-email :
    (row : User) (e : Str) (us : List User)
    → is_text row.email e ≡ true
    → first (clashes row) us ≡ none
    → count (λ (u : User). is_text u.email e) us ≡ 0
unfolding first count
clashes-email row e [] same free = refl
clashes-email row e (u ∷ us) same free =
    by_option row.email (λ n. absurd (ground (arith, n)))
      λ t there.
        let text : t ≡ e = (str_eq_iff t e).0 (ground arith) in
        ground (arith, text, there, clashes-email row e us same)

clashes-phone :
    (row : User) (p : Str) (us : List User)
    → is_text row.phone p ≡ true
    → first (clashes row) us ≡ none
    → count (λ (u : User). is_text u.phone p) us ≡ 0
unfolding first count
clashes-phone row p [] same free = refl
clashes-phone row p (u ∷ us) same free =
    by_option row.phone (λ n. absurd (ground (arith, n)))
      λ t there.
        let text : t ≡ p = (str_eq_iff t p).0 (ground arith) in
        ground (arith, text, there, clashes-phone row p us same)

append-AccountsUnique :
    (row : User) (us : List User)
    → first (clashes row) us ≡ none
    → AccountsUnique us
    → AccountsUnique (us ++ row ∷ [])
append-AccountsUnique row us free (emails, phones) = (
  λ e.
      let added = count-append (λ (u : User). is_text u.email e) row us in
      elim (Bool-cases (is_text row.email e)) [
        | inl same ↦ ground (arith, added, clashes-email row e us same free)
        | inr other ↦ ground (arith, added, emails e)
      ],
  λ p.
      let added = count-append (λ (u : User). is_text u.phone p) row us in
      elim (Bool-cases (is_text row.phone p)) [
        | inl same ↦ ground (arith, added, clashes-phone row p us same free)
        | inr other ↦ ground (arith, added, phones p)
      ],
)

-- A new account, from what was sent.
abbrev pub IsRegistered : PasswordHash → RegisterRequest → User → World → World → Type 0
IsRegistered passwords form u w w' =
    (w'.committed.users ≡ w.session.users ++ u ∷ [])
    × (u.phone ≡ some (strip form.phone))
    × (u.email ≡ normalize_email form.email)
    × (u.role ≡ register_role form.role)
    × (u.is_active ≡ true)
    × (verify_password passwords form.password u.hashed_password ≡ true)
    × (first (is_duplicate (strip form.phone) (normalize_email form.email)) w.session.users ≡ none)

module _ (passwords : PasswordHash) (salt : ℕ) (form : RegisterRequest) (w : World) where
  abbrev row : User
  row = record {
    id = w.next_uuid;
    email = normalize_email form.email;
    phone = some (strip form.phone);
    display_name = strip form.display_name;
    hashed_password = passwords.hash salt form.password;
    role = register_role form.role;
    is_active = true;
  }

  register-ok :
      (u : User)
      → (register passwords salt form w).0 ≡ ok u
      → (u ≡ row)
        × ((register passwords salt form w).1.committed.users ≡ w.session.users ++ row ∷ [])
        × (first (clashes row) w.session.users ≡ none)
        × (first (is_duplicate (strip form.phone) (normalize_email form.email)) w.session.users
            ≡ none)
  unfolding register create_user insert_user add_profile
  register-ok u e =
      by_option
        (first (is_duplicate (strip form.phone) (normalize_email form.email)) w.session.users)
        (λ new.
          by_option (first (clashes row) w.session.users)
            (λ free. elim (Bool-cases (same_role (register_role form.role) UserRole.landlord)) [
              | inl landlord ↦ ground (arith, new, free, landlord, e)
              | inr seeker ↦ ground (arith, new, free, seeker, e)
            ])
            λ v taken. absurd (ground (arith, new, taken, e)))
        λ v known. absurd (ground (arith, known, e))

  register-err :
      (e : Error)
      → (register passwords salt form w).0 ≡ err e
      → (register passwords salt form w).1.committed ≡ w.committed
  unfolding register create_user insert_user add_profile
  register-err e refused =
      by_option
        (first (is_duplicate (strip form.phone) (normalize_email form.email)) w.session.users)
        (λ new.
          by_option (first (clashes row) w.session.users)
            (λ free. elim (Bool-cases (same_role (register_role form.role) UserRole.landlord)) [
              | inl landlord ↦ absurd (ground (arith, new, free, landlord, refused))
              | inr seeker ↦ absurd (ground (arith, new, free, seeker, refused))
            ])
            λ v taken. ground (arith, new, taken))
        λ v known. ground (arith, known)

  -- A registration that answers has committed one active account more, with the phone and the email
  -- in normal form, with the role of a seeker or a landlord and with a hash that the password
  -- verifies against, and each email and each phone still belongs to one account; one that is
  -- refused has committed nothing. Provided that emails and phones were unique.
  pub register-AccountsUnique :
      AccountsUnique w.session.users
      → Ensures
          (register passwords salt form w)
          (λ u w'. IsRegistered passwords form u w w' × AccountsUnique w'.committed.users)
          (λ w'. w'.committed ≡ w.committed)
  register-AccountsUnique unique =
      Ensures-cases (register passwords salt form w) _ _
        (λ u e.
          let (same, users, free, new) = register-ok u e in
          rw same (
            (users, refl, refl, refl, refl, verify_password-hash passwords salt form.password, new),
            rw users (append-AccountsUnique row w.session.users free unique),
          ))
        register-err
