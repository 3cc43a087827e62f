-- ===== src/Lib.antt =====
-- Verification library of determa-state-python.
--
-- The program runs hierarchical state machines. A bundle of machine definitions is loaded and type
-- checked, an aggregate of runtimes is created from it, deliveries are admitted to the mailboxes of
-- the aggregate, the engine takes steps, and a store keeps the encoded checkpoint of each root by
-- compare and swap. The files here follow these parts; paths are from the repository's root.
--
--   Codes and its children   src/determa/state/codes.py: one module for each enumeration, with the text
--                            of each member, and PORTABLE_CODE_SETS.
--   Wire.Decimal, Hex, Typed src/determa/state/wire.py: _signed_decimal, decimal, typed_value and
--                            decoded_typed_value. A float is its 64-bit pattern, a dictionary its list of
--                            members, and text a sequence of Unicode scalars.
--   Queue                    src/determa/state/queueing.py: the aggregate's envelopes, entries and
--                            runtimes (Document), _validate_mailboxes (Mailboxes), seal_aggregate_v1
--                            (Seal), _validate_new_deliveries (Admit), admit_aggregate_v1 (Accept),
--                            the ends of runtimes (Lifecycle), _enqueue_emissions (Emissions), moved
--                            entries (Deferrals) and step_aggregate_v1 (Step). The state passed on is the record Document.
--   Cel                      src/determa/state/cel.py: StaticType and its relations (Types), parse trees
--                            (Tree), the methods of _Checker (Operators, Checker), check_map_literal,
--                            and _portable_equal_value and membership (Equality).
--   States                   src/determa/state/model.py: ancestors, resolve, leaves_under, and from
--                            src/determa/state/engine.py: _boundary, the paths of enter_path and of
--                            apply_transition; and _structurally_deferred of queueing.py.
--   Ownership                src/determa/state/engine.py: _ownership_cycle, _locate_target,
--                            _target_eligibility, owns_descendant; and _runtime_is_runnable of
--                            queueing.py.
--   Yaml                     src/determa/state/yaml12.py: validate_unicode, validate_portable_values and
--                            normalize_portable_values (Host), _resolve_plain with its regular
--                            expressions (Plain), the constructors and load (Load).
--   Store                    src/determa/state/stores/base.py, memory.py and file.py: checkpoint_metadata,
--                            a transaction with insert, replace and commit, the records by root, and
--                            the commit of a file, where each call of the operating system returns,
--                            raises or is where the process is killed, and the stream of the temporary
--                            file passes its bytes on a part at a time.
--   Prelude                  what these share: tests, lists, outcomes of code that may raise, sorting.
--   Examples                 tests and applications of the theorems to concrete data.
--
-- Code that raises returns an Outcome, or an Option where only one exception is possible. Recursion is
-- structural, except for decimal digits, which recur on a smaller number, and the loops over owners,
-- which take a number of steps: one more than there are runtimes is enough if no owners form a cycle,
-- and two more for _runtime_is_runnable, which counts the runtime itself.
--
-- Parameters stand for code outside the model: SHA-256 with canonical JSON, the parser and the
-- evaluator of celpy, number parsing and ast.literal_eval of Python, the YAML library, strict_json in
-- the stores, and in the queue what the engine decides about an envelope (the record Rules). A step has
-- the engine's dispatch and the encoding of its state as parameters as well (the record Engine); what
-- the theorems ask of them are hypotheses, in the record Complete and above each theorem.
--
-- Not modelled: dispatch, actions and completion in the engine, creation and migration, hosts,
-- authority, effects, checkpoints, extensions, providers, inspection, SQL stores, and everything that
-- is input and output alone. Nor are the limit of 4300 digits of Python's `int`, which a plain integer in
-- a source can exceed, and texts with surrogates in the values of wire.py, which `typed_value` refuses:
-- there a text is made of Unicode scalars by its type.
pub mod Cel
pub mod Codes
pub mod Examples
pub mod Ownership
pub mod Prelude
pub mod Queue
pub mod States
pub mod Store
pub mod Wire
pub mod Yaml
