-- ===== src/Clouds/Dropbox/Kept.antt =====
-- The order of the reports that one step of `proccessChanges` keeps.
use sync_harbor.Base.{
  ℕ, ◌≡◌, refl, Bool, true, false, ◌⊎◌, Bool-cases, inl, inr, String, List, [], ◌∷◌, ◌++◌, All,
  All-append, ◌==◌, string_eq, if◌then◌else◌,
}
use sync_harbor.Base.Dict.{emplace, erase}
use sync_harbor.Utils.Kinds.{ChangeType, change_type_eq}
use sync_harbor.Utils.FilePath.{path_eq}
use sync_harbor.Utils.Dto.{FileRecordDto, FileUpdatedDto, FileMovedDto, FileDeletedDto}
use sync_harbor.Database.Connection.{Failure, Method, Result, ok, err}
use sync_harbor.Changes.Change.{Change, new_change, add_to_chain, on_command_created}
use sync_harbor.Changes.Factory.{
  make, make_cloud_new, make_cloud_update, make_cloud_move, make_delete,
}
use sync_harbor.Local.Frame.{Ends, does_if}
use sync_harbor.Registry.{check}
use sync_harbor.Clouds.Sweep.{Report, Sweep, Turn, asks, unless_old, alone}
use sync_harbor.Clouds.Dropbox.Changes.{Deletions}

abbrev pub IsDeletion : Report → Type 0
IsDeletion r = r.change.type ≡ ChangeType.deleted

abbrev pub IsOther : Report → Type 0
IsOther r = (r.change.type == ChangeType.deleted) ≡ false

abbrev pub IsPending : String × Change → Type 0
IsPending p = p.1.type ≡ ChangeType.deleted

-- No report so far is a deletion, and what is pending are deletions.
pub record IsOrdered (s : Sweep Deletions) : Type 0 where
  pub others : All IsOther s.changes
  pub pending : All IsPending s.memory

abbrev pub Keeps : Sweep Deletions → Sweep Deletions → Type 0
Keeps s s' = IsOrdered s → IsOrdered s'

pub Keeps-trans : (a b c : Sweep Deletions) → Keeps a b → Keeps b c → Keeps a c
Keeps-trans a b c f g h = g (f h)

pub make_delete-type :
    (clouds : List ℕ) (dto : FileDeletedDto) → (make_delete clouds dto).type ≡ ChangeType.deleted
unfolding make_delete make new_change add_to_chain on_command_created
make_delete-type clouds dto = refl

pub make_cloud_new-IsOther :
    (clouds : List ℕ) (dto : FileRecordDto) → IsOther (alone (make_cloud_new clouds dto))
unfolding change_type_eq make_cloud_new make new_change add_to_chain on_command_created
make_cloud_new-IsOther clouds dto = refl

pub make_cloud_move-IsOther :
    (clouds : List ℕ) (dto : FileMovedDto) → IsOther (alone (make_cloud_move clouds dto))
unfolding change_type_eq make_cloud_move make new_change add_to_chain on_command_created
make_cloud_move-IsOther clouds dto = refl

pub make_cloud_update-IsOther :
    (clouds : List ℕ) (dto : FileUpdatedDto) → IsOther (alone (make_cloud_update clouds dto))
unfolding change_type_eq make_cloud_update make new_change add_to_chain on_command_created
make_cloud_update-IsOther clouds dto = refl

pub report-Keeps :
    (s : Sweep Deletions) (r : Report) (memory : Deletions)
    → IsOther r
    → (All IsPending s.memory → All IsPending memory)
    → Keeps s (record s { changes = s.changes ++ (r ∷ []); memory = memory })
report-Keeps s r memory other m h = record {
  others = All-append IsOther s.changes (r ∷ []) h.others (other, tt);
  pending = m h.pending;
}

pub erase-IsPending :
    (key : String) (pending : Deletions) → All IsPending pending → All IsPending (erase key pending)
unfolding erase
erase-IsPending key [] h = tt
erase-IsPending key ((k, ch) ∷ pending) h =
    let rest = erase-IsPending key pending h.1 in
    elim (Bool-cases (key == k)) [ inl e ↦ rw e rest | inr e ↦ rw e (h.0, rest) ]

pub emplace-IsPending :
    (key : String) (ch : Change) (pending : Deletions)
    → ch.type ≡ ChangeType.deleted
    → All IsPending pending
    → All IsPending (emplace key ch pending)
unfolding emplace
emplace-IsPending key ch [] e h = (e, tt)
emplace-IsPending key ch ((k, old) ∷ pending) e h =
    let rest = emplace-IsPending key ch pending e h.1 in
    elim (Bool-cases (key == k)) [ inl e ↦ rw e h | inr e ↦ rw e (h.0, rest) ]

pub unless_old-Keeps :
    (need : Bool) (key : String) (ct : ChangeType) (rest : Turn Deletions) (s : Sweep Deletions)
    → ((s : Sweep Deletions) → Ends Keeps s (rest s))
    → Ends Keeps s (unless_old need key ct rest s)
unfolding unless_old
unless_old-Keeps false key ct rest s h = h s
unless_old-Keeps true key ct rest s h =
    let (hit, r) = check key ct s.old_expected in
    let s' = record s { old_expected = r } in
    record {
      related = λ o.
          (does_if hit s' (ok tt, s') (rest s') (record { related = λ p. p }) (h s')).related
            (record { others = o.others; pending = o.pending });
    }

pub asks-Keeps : {A : Type 0} (m : Method A) (s : Sweep Deletions) → Keeps s (asks m s).1
asks-Keeps m s o = record { others = o.others; pending = o.pending }

abbrev pub skips : {s : Sweep Deletions} → Ends Keeps s (ok tt, s)
skips = record { related = λ o. o }

pub chooses :
    (b : Bool) (s : Sweep Deletions) (x y : Turn Deletions)
    → Ends Keeps s (x s)
    → Ends Keeps s (y s)
    → Ends Keeps s ((if b then x else y) s)
chooses true s x y hx hy = hx
chooses false s x y hx hy = hy

pub result-cases :
    {A : Type 0} (r : Result A) → ((a : A) × (r ≡ ok a)) ⊎ ((f : Failure) × (r ≡ err f))
result-cases (ok a) = inl (a, refl)
result-cases (err f) = inr (f, refl)
