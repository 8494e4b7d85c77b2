-- ===== src/Storage.antt =====
-- A small JSON file that a component keeps, by what it holds. A save writes a temporary file and
-- renames it last, so it replaces the file or leaves it; which of the two is an input of the models.
-- Reading back what was saved gives the saved value: serde's part, and not modelled.

-- Not there, there but refused when it is read, or holding a value.
pub data DiskFile {ℓ} (S : Type ℓ) : Type ℓ where
  missing : DiskFile S
  invalid : DiskFile S
  holds : S → DiskFile S
