-- ===== src/Lib.antt =====
-- A verification library for the core of the retail-intelligence platform: its inventory engines,
-- its exact money arithmetic, the readiness and lifecycle of publications, and the store echelon of its
-- data generator.
--
-- The platform ingests retailer data into curated publications, selects one publication per scope,
-- runs forecasts and inventory engines on it, and serves the results. The engines are functions on
-- integers, dates and mappings; the money functions keep amounts in integer minor units, which the
-- engines and the ingestion share; the selection functions decide which publication a command may
-- use, and the readiness report decides which capability may consume it. Each part is translated
-- function by function and keeps the source's names.
--
-- Parts, files and sources:
--   Engines/Allocation    allocate_channels of ml/src/retail_ml/engines/optimizers.py. Defs has the
--     definitions; Bounds, Conservation, Order and Priority the proofs. The list `allocations` and the
--     variable `remaining` are a pair, Pool, that each round of a loop returns anew.
--   Engines/Transfers     recommend_transfers of the same file. The two mappings that the loop
--     writes, remaining units and headroom, are passed on explicitly.
--   Engines/Clock         ml/src/retail_ml/engines/clock.py.
--   Engines/Replay        replay_market of ml/src/retail_ml/engines/replay.py: one function for each
--     numbered part of the loop's body, composed by replay_period. It calls Engines/Clock. A cell
--     object that the source mutates in place is written back to the mapping.
--   Engines/Acceptance    metric, _compare, evaluate_acceptance and, in Oracle, reproduce_oracle and
--     fill_rate of replay.py, on the periods that
--     Engines/Replay gives. A mapping by metric is the list in the order of GATE_RULES; the verdict
--     reads only the entry `passed` of an oracle.
--   Engines/Cohorts       split_cohorts of replay.py, for which the assignment is any function of the key,
--     and assign_cohort of ml/src/retail_ml/engines/cohorts.py in Assign.
--   Engines/Analytics     the functions of ml/src/retail_ml/engines/analytics.py on integers, dates and
--     comparisons of decimals. Currencies and Costs have the proofs on costs of receipts.
--   Engines/Resolution    active_lanes, resolve_lane and resolve_supply_term of
--     ml/src/retail_ml/engines/resolution.py.
--   Engines/Intervals     ml/src/retail_ml/engines/interval_guard.py. The ledger is a record that
--     `observe` returns anew.
--   Money                 contracts/python/src/retail_contracts/money.py, and fx.py beside it in Fx and
--     Rounding.
--   Selection             ingestion/src/retail_ingestion/readiness/selection.py: the operations in Defs, and
--     in History the ledgers that they build from candidates.
--   Datagen/Echelon       StoreEchelon of datagen/src/retail_datagen/store_inventory.py. Setup has what
--     __post_init__ derives, Rows what is published, Flow seed_opening, receive, sell and expire, Review
--     the replenishment, Publish lane_rows, snapshot and coverage_summary; Days has the steps in any
--     order, Runs what a run reaches, and Delivery the loop over days. A generator is the list of what it yields, with the state after.
--   Readiness             ingestion/src/retail_ingestion/readiness/evaluator.py: Defs has the policy and the
--     temporal evidence, Zero the zero-demand labels, Capabilities and Report the verdicts; Verdicts,
--     Grades, Eligible, Proceed and Decisions the proofs. A set is a list.
--   Quality               ml/src/retail_ml/policies/quality_v2.py. Ranks and Display read the classes as
--     numbers.
--   Decimal               Python's Decimal as the parts use it: a coefficient and an exponent, with
--     rounding of products and quotients to the context's 28 digits, half to even.
--   Base                  lists, integers, equality of keys, mappings as association lists, stable
--     sorting, and results that may be an exception.
--
-- Numbers. Python's integers do not overflow, and are ℤ here; money is checked against the signed
-- 64-bit range by the code itself. A date is its proleptic ordinal, and an instant is a day with a
-- second of that day on the wall clock of one time zone, in which Python compares instants that
-- carry the same zone. Every loop runs over a list or a count; only the number of decimal digits is
-- counted on fuel, which is the number itself, and so enough. Comparison of texts is by code points.
--
-- Exceptions are values of Result, one constructor for each check of the source. An exception that
-- the source cannot name, such as an index out of range, is a constructor as well. A mapping row is a
-- record of the fields that the code reads, with the types that the code converts them to.
--
-- Parameters. The digests of a cohort and of stable_integer are any functions of their text, and a
-- policy file is read by any function from paths to policies. The order policy of a replay is any
-- function. The digests of a selection (canonical JSON and SHA-256), the file system and the
-- floating-point numbers of the ledger are fields of records that the definitions take; no property
-- assumes anything of them. An amount of money given as text is the Decimal that the text denotes.
--
-- Not modelled: the time-zone database, the messages of exceptions, the engines that work on binary
-- floats (safety stock, demand risk), cover and health classes, which divide two decimals, ABC classes,
-- training and serving of models, SQL and file access of the ingestion, the data generator but for its
-- store echelon, the HTTP interface in Go and the web client. Dates have no last day.
pub mod Base
pub mod Datagen
pub mod Decimal
pub mod Engines
pub mod Money
pub mod Quality
pub mod Readiness
pub mod Selection
