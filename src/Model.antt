-- ===== src/Model.antt =====
-- src/atlas/model.py. A class is a record; `__post_init__` is a function `check_…` over the record
-- that returns its first error. The checks `type(x) is not C` are the types of the fields.
-- Identifiers (src/atlas/identity.py) are their texts: the field says which domain one belongs to.
pub mod Knowledge
pub mod Snapshot
pub mod Grounding
pub mod Discovery
pub mod Scope
