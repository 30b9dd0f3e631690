-- ===== src/Changes/Factory/Coverage.antt =====
-- Which commands a made change holds, and that its counter is their number.
use sync_harbor.Base.{
  ℕ, zero, suc, ◌+◌, ◌≡◌, refl, ap, ◌∙◌, ◌||◌, ◌&&◌, List, [], ◌∷◌, ◌==◌, Eq, nat_eq, keep, length,
  arith, if◌then◌else◌,
}
use sync_harbor.Base.Int.{ℤ, pos, add_one}
use sync_harbor.Utils.Kinds.{ChangeType}
use sync_harbor.Utils.FilePath.{FilePath}
use sync_harbor.Utils.Dto.{FileRecordDto, FileUpdatedDto, FileMovedDto, FileDeletedDto}
use sync_harbor.Changes.Command.{
  CommandKind, local_upload, local_update, local_move, local_delete, cloud_upload, cloud_update,
  cloud_move, cloud_delete, cloud_download_new, cloud_download_update, is_local, Payload, Command,
  command, Commands, end, next, size, sizes,
}
use sync_harbor.Changes.Factory.{
  created, targets, level, place, add_next_commands, make, make_cloud_new, make_local_new,
  make_cloud_move, make_local_move, make_cloud_update, make_local_update, make_delete,
}

CommandKind-discrete : Discrete CommandKind
CommandKind-discrete = hlevel

instance unfoldable pub command_kind_eq : Eq CommandKind
unfolding CommandKind-discrete
command_kind_eq = record { dec = CommandKind-discrete }

-- How many commands of a class for a cloud a tree holds.
unfoldable mutual
  pub occurs : CommandKind → ℕ → Command → ℕ
  occurs k c (command kind cid dto nexts) =
      (if kind == k && cid == c then 1 else 0) + occurs_in k c nexts

  pub occurs_in : CommandKind → ℕ → Commands → ℕ
  occurs_in k c end = 0
  occurs_in k c (next d ds) = occurs k c d + occurs_in k c ds

unfoldable pub chain_size : List Command → ℕ
chain_size [] = 0
chain_size (c ∷ cs) = size c + chain_size cs

unfoldable pub chain_occurs : CommandKind → ℕ → List Command → ℕ
chain_occurs k c [] = 0
chain_occurs k c (d ∷ ds) = occurs k c d + chain_occurs k c ds

-- How often a key stands in a list; the keys of a map stand there once.
unfoldable pub count : ℕ → List ℕ → ℕ
count c [] = 0
count c (d ∷ ds) = (if d == c then 1 else 0) + count c ds

sizes-place :
    (kind : CommandKind) (cids : List ℕ) (deeper : Commands)
    → sizes (place kind cids deeper) ≡ length cids + sizes deeper
unfolding sizes place
sizes-place kind [] deeper = omega arith
sizes-place kind (c ∷ []) deeper = omega arith
sizes-place kind (c ∷ d ∷ cids) deeper = omega (arith, sizes-place kind (d ∷ cids) deeper)

occurs_in-place :
    (k : CommandKind) (c : ℕ) (kind : CommandKind) (cids : List ℕ) (deeper : Commands)
    → occurs_in k c (place kind cids deeper)
      ≡ (if kind == k then count c cids else 0) + occurs_in k c deeper
unfolding occurs_in place count
occurs_in-place k c kind [] deeper = ground arith
occurs_in-place k c kind (d ∷ []) deeper = ground arith
occurs_in-place k c kind (d ∷ e ∷ cids) deeper =
    ground (arith, occurs_in-place k c kind (e ∷ cids) deeper)

created_pos : (n m : ℕ) → created n (pos m) ≡ pos (n + m)
unfolding created add_one
created_pos zero m = ap pos (omega arith)
created_pos (suc n) m = created_pos n (suc m) ∙ ap pos (omega arith)

add_next_commands-pending :
    (src : ℕ) (clouds : List ℕ) (kinds : List CommandKind) (m : ℕ)
    → (add_next_commands src clouds kinds (pos m)).1
      ≡ pos (sizes (add_next_commands src clouds kinds (pos m)).0 + m)
unfolding add_next_commands sizes
add_next_commands-pending src clouds [] m = ap pos (omega arith)
add_next_commands-pending src clouds (kind ∷ kinds) m =
    rw (created_pos (length (level src clouds kind)) m, sizes-place kind (level src clouds kind))
      (add_next_commands-pending src clouds kinds (length (level src clouds kind) + m)
        ∙ ap pos (omega arith))

-- The counter of a change made by `ChangeFactory::make` is the number of commands in its chain, of
-- which every one has the change for its owner.
pub make-pending_cmds :
    (clouds : List ℕ) (initial : CommandKind) (kinds : List CommandKind) (type : ChangeType)
    (time : ℕ) (path : FilePath) (dto : Payload) (src : ℕ)
    → let change = make clouds initial kinds type time path dto src in
      change.pending_cmds ≡ pos (chain_size change.cmd_chain)
unfolding make chain_size size
make-pending_cmds clouds initial kinds type time path dto src =
    add_next_commands-pending src clouds kinds 1 ∙ ap pos (omega arith)

-- How many commands of a class for a cloud the fold adds, by the classes that it is given.
expected : CommandKind → ℕ → ℕ → List ℕ → List CommandKind → ℕ
expected k c src clouds [] = 0
expected k c src clouds (kind ∷ kinds) =
    (if kind == k then count c (level src clouds kind) else 0) + expected k c src clouds kinds

occurs_in-add_next_commands :
    (k : CommandKind) (c src : ℕ) (clouds : List ℕ) (kinds : List CommandKind) (p : ℤ)
    → occurs_in k c (add_next_commands src clouds kinds p).0 ≡ expected k c src clouds kinds
unfolding add_next_commands occurs_in expected
occurs_in-add_next_commands k c src clouds [] p = refl
occurs_in-add_next_commands k c src clouds (kind ∷ kinds) p =
    rw (occurs_in-place k c kind (level src clouds kind)) (
      ap (◌+◌ (if kind == k then count c (level src clouds kind) else 0))
        (occurs_in-add_next_commands k c src clouds kinds _))

count-targets :
    (c src : ℕ) (clouds : List ℕ)
    → count c (targets src clouds) ≡ (if c == src || c == 0 then 0 else count c clouds)
unfolding count targets keep
count-targets c src [] = ground arith
count-targets c src (d ∷ clouds) = ground (arith, count-targets c src clouds)

make-occurs :
    (k : CommandKind) (c : ℕ) (clouds : List ℕ) (initial : CommandKind) (kinds : List CommandKind)
    (type : ChangeType) (time : ℕ) (path : FilePath) (dto : Payload) (src : ℕ)
    → chain_occurs k c (make clouds initial kinds type time path dto src).cmd_chain
      ≡ (if initial == k && (if is_local initial then 0 else src) == c then 1 else 0)
        + expected k c src clouds kinds
unfolding make chain_occurs occurs
make-occurs k c clouds initial kinds type time path dto src =
    omega (arith, occurs_in-add_next_commands k c src clouds kinds (pos 1))

-- How many commands for the cloud a change from `src` is to have.
abbrev pub spread : ℕ → ℕ → List ℕ → ℕ
spread src c clouds = if c == src || c == 0 then 0 else count c clouds

module _ (clouds : List ℕ) (c : ℕ) where
  -- A new entry is uploaded once to each cloud but the one that it comes from, and stored locally
  -- once; one that comes from a cloud is downloaded from there once.
  pub new_propagates :
      (dto : FileRecordDto)
      → let remote = (make_cloud_new clouds dto).cmd_chain in
        let local = (make_local_new clouds dto).cmd_chain in
        (chain_occurs cloud_upload c remote ≡ spread dto.cloud_id c clouds)
        × (chain_occurs local_upload 0 remote ≡ 1)
        × (chain_occurs cloud_download_new dto.cloud_id remote ≡ 1)
        × (chain_occurs cloud_upload c local ≡ spread 0 c clouds)
        × (chain_occurs local_upload 0 local ≡ 1)
  unfolding make_cloud_new make_local_new expected level count command_kind_eq
  new_propagates dto = (
    make-occurs cloud_upload c clouds _ _ _ _ _ _ _
        ∙ ground (arith, count-targets c dto.cloud_id clouds),
    make-occurs local_upload 0 clouds _ _ _ _ _ _ _ ∙ ground arith,
    make-occurs cloud_download_new dto.cloud_id clouds _ _ _ _ _ _ _ ∙ ground arith,
    make-occurs cloud_upload c clouds _ _ _ _ _ _ _ ∙ ground (arith, count-targets c 0 clouds),
    make-occurs local_upload 0 clouds _ _ _ _ _ _ _ ∙ ground arith,
  )

  -- A changed entry is updated once in each cloud but the one that the change comes from, and
  -- locally once; a change that comes from a cloud is downloaded from there once.
  pub update_propagates :
      (dto : FileUpdatedDto)
      → let remote = (make_cloud_update clouds dto).cmd_chain in
        let local = (make_local_update clouds dto).cmd_chain in
        (chain_occurs cloud_update c remote ≡ spread dto.cloud_id c clouds)
        × (chain_occurs local_update 0 remote ≡ 1)
        × (chain_occurs cloud_download_update dto.cloud_id remote ≡ 1)
        × (chain_occurs cloud_update c local ≡ spread 0 c clouds)
        × (chain_occurs local_update 0 local ≡ 1)
  unfolding make_cloud_update make_local_update expected level count command_kind_eq
  update_propagates dto = (
    make-occurs cloud_update c clouds _ _ _ _ _ _ _
        ∙ ground (arith, count-targets c dto.cloud_id clouds),
    make-occurs local_update 0 clouds _ _ _ _ _ _ _ ∙ ground arith,
    make-occurs cloud_download_update dto.cloud_id clouds _ _ _ _ _ _ _ ∙ ground arith,
    make-occurs cloud_update c clouds _ _ _ _ _ _ _ ∙ ground (arith, count-targets c 0 clouds),
    make-occurs local_update 0 clouds _ _ _ _ _ _ _ ∙ ground arith,
  )

  -- A move and a deletion are carried out locally once, and once in each cloud but the one that
  -- they come from.
  pub move_propagates :
      (moved : FileMovedDto) (deleted : FileDeletedDto)
      → let remote = (make_cloud_move clouds moved).cmd_chain in
        let local = (make_local_move clouds moved).cmd_chain in
        let deletion = (make_delete clouds deleted).cmd_chain in
        (chain_occurs cloud_move c remote ≡ spread moved.cloud_id c clouds)
        × (chain_occurs local_move 0 remote ≡ 1)
        × (chain_occurs cloud_move c local ≡ spread 0 c clouds)
        × (chain_occurs local_move 0 local ≡ 1)
        × (chain_occurs cloud_delete c deletion ≡ spread deleted.cloud_id c clouds)
        × (chain_occurs local_delete 0 deletion ≡ 1)
  unfolding make_cloud_move make_local_move make_delete expected level count command_kind_eq
  move_propagates moved deleted = (
    make-occurs cloud_move c clouds _ _ _ _ _ _ _
        ∙ ground (arith, count-targets c moved.cloud_id clouds),
    make-occurs local_move 0 clouds _ _ _ _ _ _ _ ∙ ground arith,
    make-occurs cloud_move c clouds _ _ _ _ _ _ _ ∙ ground (arith, count-targets c 0 clouds),
    make-occurs local_move 0 clouds _ _ _ _ _ _ _ ∙ ground arith,
    make-occurs cloud_delete c clouds _ _ _ _ _ _ _
        ∙ ground (arith, count-targets c deleted.cloud_id clouds),
    make-occurs local_delete 0 clouds _ _ _ _ _ _ _ ∙ ground arith,
  )
