-- ===== src/Tests.antt =====
-- Small instances of the interfaces: a file that is a list of bytes, and a replica that remembers
-- the length of the last write. The children run the theorems on them.
mod Agents
mod Chains
mod Connections
mod Disks
mod Replicas
mod Servers
mod Salvages
mod Settings
use longhorn_engine.Prelude.{
  zero, suc, ◌+◌, ◌≤◌, ◌≡◌, ap, ◌∙◌, arith, ℕ, zero, suc, ◌+◌, ◌-◌, Bool, true, false, not, Option,
  none, some, List, [], ◌∷◌, length, get_or, refl, if◌then◌else◌, ◌==◌, ◌||◌,
}
use longhorn_engine.Prelude.Int.{pos}
use longhorn_engine.Types.{plain}
use longhorn_engine.DiffDisk.{DiffFile, ok}
use longhorn_engine.DiffDisk.Layers.{SparseFile, bytes_from}
use longhorn_engine.DiffDisk.RoundTrip.{WritableFile}
use longhorn_engine.Replicator.Backend
use longhorn_engine.Replicator.Backend.{Backend}

-- A file in memory: an extent is a range with a byte that is not 0.
abbrev any_nonzero : List ℕ → Bool
any_nonzero [] = false
any_nonzero (x ∷ xs) = not (x == 0) || any_nonzero xs

-- A write, with zeros up to its place.
pub ram_write : List ℕ → ℕ → List ℕ → List ℕ
ram_write f zero [] = f
ram_write [] zero (x ∷ xs) = x ∷ ram_write [] zero xs
ram_write (y ∷ f) zero (x ∷ xs) = x ∷ ram_write f zero xs
ram_write [] (suc a) buf = 0 ∷ ram_write [] a buf
ram_write (y ∷ f) (suc a) buf = y ∷ ram_write f a buf

abbrev pub ram_file : DiffFile (List ℕ)
ram_file = record {
  size = λ f. ok (length f);
  read_at = λ f buf a. (bytes_from (λ i. get_or f i 0) a (length buf), length buf, none);
  write_at = λ f buf a. (ram_write f a buf, length buf, none);
  unmap_at = λ f len a. (f, len, none);
  close = λ f. none;
  has_extent = λ f a n. ok (any_nonzero (bytes_from (λ i. get_or f i 0) a n));
  actual_size = λ path f. some (length f);
}

abbrev pub ram : SparseFile ram_file
ram = record {
  size_of = λ f. length f;
  byte_of = λ f i. get_or f i 0;
  has = λ f a n. any_nonzero (bytes_from (λ i. get_or f i 0) a n);
  size_law = λ f. refl;
  read_law = λ f buf a fits. refl;
  extent_law = λ f a n. refl;
}

length-ram_write : (f buf : List ℕ) (a : ℕ) → a + length buf ≤ length (ram_write f a buf)
unfolding ram_write
length-ram_write f [] zero = omega arith
length-ram_write [] (x ∷ xs) zero = omega (arith, length-ram_write [] xs 0)
length-ram_write (y ∷ f) (x ∷ xs) zero = omega (arith, length-ram_write f xs 0)
length-ram_write [] buf (suc a) = omega (arith, length-ram_write [] buf a)
length-ram_write (y ∷ f) buf (suc a) = omega (arith, length-ram_write f buf a)

bytes_from-suc : (g : ℕ → ℕ) (a n : ℕ) → bytes_from g (suc a) n ≡ bytes_from (λ i. g (suc i)) a n
bytes_from-suc g a zero = refl
bytes_from-suc g a (suc n) = ap (λ z. g (suc a) ∷ z) (bytes_from-suc g (suc a) n)

ram_write_lem :
    (f buf : List ℕ) (a : ℕ) → bytes_from (λ i. get_or (ram_write f a buf) i 0) a (length buf) ≡ buf
unfolding ram_write
ram_write_lem f [] a = refl
ram_write_lem [] (x ∷ xs) zero =
    ap (λ z. x ∷ z) (bytes_from-suc _ 0 (length xs) ∙ ram_write_lem [] xs 0)
ram_write_lem (y ∷ f) (x ∷ xs) zero =
    ap (λ z. x ∷ z) (bytes_from-suc _ 0 (length xs) ∙ ram_write_lem f xs 0)
ram_write_lem [] (x ∷ xs) (suc a) =
    bytes_from-suc (λ i. get_or (ram_write [] (suc a) (x ∷ xs)) i 0) a (suc (length xs))
    ∙ ram_write_lem [] (x ∷ xs) a
ram_write_lem (y ∷ f) (x ∷ xs) (suc a) =
    bytes_from-suc (λ i. get_or (ram_write (y ∷ f) (suc a) (x ∷ xs)) i 0) a (suc (length xs))
    ∙ ram_write_lem f (x ∷ xs) a

pub ram_writes : WritableFile ram
ram_writes = record {
  write_size = λ f buf a fine. length-ram_write f buf a;
  write_law = λ f buf a fine. ram_write_lem f buf a;
}

-- A replica that may be broken, with the length of the last write that it took.
abbrev pub Node : Type 0
Node = Bool × ℕ

abbrev pub node : Backend Node
node = record {
  read_at =
      λ buf off s. if s.0 then (s, buf, 0, some (plain "broken")) else (s, buf, length buf, none);
  write_at = λ buf off s.
      if s.0 then (s, 0, some (plain "broken")) else ((false, length buf), length buf, none);
  unmap_at = λ len off s. if s.0 then (s, 0, some (plain "broken")) else (s, len, none);
  snapshot = λ q s. (s, none);
  expand = λ n s. (s, none);
  close = λ s. (s, none);
  stop_monitoring = λ s. s;
  get_revision_counter = λ s. (s, Backend.ok (pos 1));
  set_revision_counter = λ n s. (s, none);
  get_snapshot_usage = λ s. (s, Backend.ok (0, 0));
  get_head_file_size = λ s. (s, Backend.ok 0);
  get_unmap_mark_removed = λ s. (s, Backend.ok false);
  set_unmap_mark_removed = λ x s. (s, none);
  set_snapshot_max_count = λ n s. (s, none);
  set_snapshot_max_size = λ n s. (s, none);
  is_revision_counter_disabled = λ s. (s, Backend.ok false);
}
