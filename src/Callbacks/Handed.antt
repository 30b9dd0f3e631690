-- ===== src/Callbacks/Handed.antt =====
-- What the loops of `completionCallback` give the next commands.
use mathlib.Core.Path.{subst}
use sync_harbor.Base.{ℕ, ◌≡◌, refl, sym, ap, ◌∙◌, true, arith, if◌then◌else◌}
use sync_harbor.Utils.FilePath.{FilePath}
use sync_harbor.Database.Connection.{Connection, Codes, Method, Result, ok, err, return, ◌>>=◌}
use sync_harbor.Database.Read.{
  get_cloud_file_id_by_path, get_cloud_file_id_by_cloud_id, get_file_by_cloud_and_global_id,
}
use sync_harbor.Changes.Command.{
  CommandKind, Payload, Command, command, Commands, end, next, kind_of, get_id, dto_of,
  next_commands, accepts, set_dto,
}
use sync_harbor.Callbacks.Passing.{pass_on}

-- The call leaves the database alone, and what it returns, if it does, is so.
pub record Reads {A : Type 0} (P : A → Type 0) (s : Connection) (r : Result A × Connection)
    : Type 0 where
  pub kept : r.1 ≡ s
  pub returned : (a : A) → r.0 ≡ ok a → P a

Reads-after :
    {A B : Type 0} (Q : A → Type 0) (P : B → Type 0) (s : Connection) (r : Result A × Connection)
    (k : A → Method B)
    → r.1 ≡ s
    → ((a : A) → r.0 ≡ ok a → Q a)
    → ((a : A) → Q a → Reads P s (k a s))
    → Reads P s (elim r.0 as (λ _. Result B × Connection) [ ok a ↦ k a r.1 | err e ↦ (err e, r.1) ])
Reads-after Q P s (ok a, s') k e first later =
    subst (λ s'. Reads P s (k a s')) (sym e) (later a (first a refl))
Reads-after Q P s (err f, s') k e first later = record {
  kept = e;
  returned = λ b h. absurd (ground arith);
}

pub Reads-bind :
    {A B : Type 0} (Q : A → Type 0) (P : B → Type 0) (s : Connection) (m : Method A)
    (k : A → Method B)
    → Reads Q s (m s)
    → ((a : A) → Q a → Reads P s (k a s))
    → Reads P s ((m >>= k) s)
Reads-bind Q P s m k first later = Reads-after Q P s (m s) k first.kept first.returned later

pub Reads-return :
    {A : Type 0} (P : A → Type 0) (s : Connection) (a : A) → P a → Reads P s (ok a, s)
Reads-return {A} P s a h = record { kept = refl; returned = λ b e. subst P (ok_inj e) h }
  where
    ok_inj : {a b : A} → ok a ≡ ok b → a ≡ b
    ok_inj e = ground arith

-- A query, and what it says.
pub Reads-query :
    {A : Type 0} (m : Method A) (s : Connection) → (m s).1 ≡ s → Reads (λ a. (m s).0 ≡ ok a) s (m s)
Reads-query m s e = record { kept = e; returned = λ a h. h }

pub path_query-kept :
    (c : Codes) (p : FilePath) (cloud : ℕ) (s : Connection)
    → (get_cloud_file_id_by_path c c p cloud s).1 ≡ s
unfolding get_cloud_file_id_by_path
path_query-kept c p cloud s = ground arith

pub id_query-kept :
    (c : Codes) (cloud g : ℕ) (s : Connection) → (get_cloud_file_id_by_cloud_id c cloud g s).1 ≡ s
unfolding get_cloud_file_id_by_cloud_id
id_query-kept c cloud g s = ground arith

pub link_query-kept :
    (c : Codes) (cloud g : ℕ) (s : Connection) → (get_file_by_cloud_and_global_id c cloud g s).1 ≡ s
unfolding get_file_by_cloud_and_global_id
link_query-kept c cloud g s = ground arith

-- The command is the old one with a DTO that is as asked for its cloud.
pub record IsHanded {A : Type 0} (P : ℕ → A → Type 0) (payload : A → Payload) (c d : Command)
    : Type 0 where
  pub same_kind : kind_of d ≡ kind_of c
  pub same_id : get_id d ≡ get_id c
  pub same_next : next_commands d ≡ next_commands c
  pub dto : A
  pub given : dto_of d ≡ payload dto
  pub right : P (get_id c) dto

abbrev pub AllHanded :
    {A : Type 0} → (ℕ → A → Type 0) → (A → Payload) → Commands → Commands → Type 0
AllHanded P payload end end = Unit
AllHanded P payload (next c cs) (next d ds) = IsHanded P payload c d × AllHanded P payload cs ds
AllHanded P payload _ _ = ⊥

-- Every command of the list is of one class.
abbrev pub AllOfKind : CommandKind → Commands → Type 0
AllOfKind kind end = Unit
AllOfKind kind (next c cs) = (kind_of c ≡ kind) × AllOfKind kind cs

set_dto-IsHanded :
    {A : Type 0} (P : ℕ → A → Type 0) (payload : A → Payload) (c : Command) (a : A)
    → accepts (kind_of c) (payload a) ≡ true
    → P (get_id c) a
    → IsHanded P payload c (set_dto c (payload a))
unfolding set_dto kind_of get_id next_commands dto_of
set_dto-IsHanded P payload (command kind cloud_id dto nexts) a h p = record {
  same_kind = refl;
  same_id = refl;
  same_next = refl;
  dto = a;
  given = ap (λ b. if b then payload a else dto) h;
  right = p;
}

module _ {A : Type 0} (P : ℕ → A → Type 0) (payload : A → Payload) (kind : CommandKind)
    (s : Connection) (prepare : A → ℕ → Method A)
    (accepted : (a : A) → accepts kind (payload a) ≡ true) (Fits : A → Type 0)
    (prepared : (a : A) (id : ℕ) → Fits a → Reads (λ b. P id b × Fits b) s (prepare a id s)) where
  pub pass_on-AllHanded :
      (a : A) (nexts : Commands)
      → Fits a
      → AllOfKind kind nexts
      → Reads (λ passed. AllHanded P payload nexts passed.1) s (pass_on prepare payload a nexts s)
  unfolding pass_on
  pass_on-AllHanded a end fits k = Reads-return _ s (a, end) tt
  pass_on-AllHanded a (next c cs) fits k =
      let put : A → A × Commands → A × Commands =
        λ b passed. (passed.0, next (set_dto c (payload b)) passed.1) in
      Reads-bind (λ b. P (get_id c) b × Fits b) _ s (λ s. prepare a (get_id c) s)
        (λ b. pass_on prepare payload b cs >>= λ passed. return (put b passed))
        (prepared a (get_id c) fits)
        (λ b right.
          Reads-bind (λ passed. AllHanded P payload cs passed.1) _ s
            (λ s. pass_on prepare payload b cs s) (λ passed. return (put b passed))
            (pass_on-AllHanded b cs right.1 k.1)
            (λ passed rest. Reads-return _ s (put b passed) (
              set_dto-IsHanded P payload c b (ap (λ k. accepts k (payload b)) k.0 ∙ accepted b)
                  right.0,
              rest,
            )))
