-- ===== src/Lib.antt =====
-- A verification library for the code knowledge graph in src/codekg: parsers turn the files of a
-- repository into an intermediate representation, the resolver concludes what each call site
-- calls, and the graph is built of those conclusions.
--
-- The files and what they model:
--   Prelude            texts (lists of code points), lists, dicts, ordered dicts, bounded caches (Lru)
--                      and decimal digits: what the code uses of Python's str, list and dict.
--   Ir                 src/codekg/ir.py and (Ir/Sql) src/codekg/sql_ir.py: the data classes of the
--                      intermediate representation, with the source's fields in their order.
--   Resolver           src/codekg/resolver.py, in the modules below.
--   Resolver/Names     _lexical_candidates, _import_bindings and _inheritance_candidates.
--   Resolver/Refs      SymbolRef, _group_by_qname, and dicts of references by key.
--   Resolver/Bases     BaseState with both ways to find one: _base_states_from_files, and base_state
--                      of SqliteResolverIndex over the rows of its query.
--   Resolver/Index     ResolverIndex as a record of look-ups, InMemoryResolverIndex, and (Sqlite)
--                      SqliteResolverIndex over the rows of its tables.
--   Resolver/Merge     _c3_merge. Sound and Complete say what a merge is.
--   Resolver/Mro       _mro and _cache_mro, as a computation that passes the cache on. Reference is
--                      the same search without a cache, Contract what Python promises of an order.
--   Resolver/Calls     resolve and all the methods that it calls: Candidates, Receivers (the local
--                      types), Methods (self, cls and super), and Sites (resolve_call_sites).
--   SqlResolver        src/codekg/sql_resolver.py, in the modules below.
--   SqlResolver/Keys   _component, sql_object_key and sql_database_key.
--   SqlResolver/Registry, SqlResolver/Lookup
--                      _query_candidates, _conclude and _resolve_uncached over the rows of the
--                      table of objects. Exact says what an exact conclusion rests on, with
--                      Kinds, Alone and Visible.
--   SqlResolver/CacheKey, SqlResolver/Cached
--                      resolve, with its cache of conclusions; Transparent: the cache does not show.
--   SqlResolver/Build  the objects that build_sql_registry groups; Defined: a definition finds its own.
--                      StoredKey: the keys that its SQL puts together.
--   SqlResolver/Listing the tables of databases and of definitions, and the listings of both and of
--                      objects.
--   SourceLocations    ByteLocations and (Utf8) Utf8Offsets of src/codekg/source_locations.py.
--   CsvLimits          src/codekg/csv_limits.py. Written: what csv.writer writes.
--   Docs               src/codekg/docs.py, in the modules below.
--   Docs/Ranges        _markdown_chunk_ranges. Fences, Tiling and Fenced say what its ranges are.
--   Docs/Headings, Docs/Sections
--                      MARKDOWN_HEADING_RE and the stack of headings. Written and Outline.
--   Docs/Mentions      MENTION_RE, extract_mentions and _looks_like_symbol.
--   Docs/Chunks        _chunk_markdown_file and resolve_markdown_descriptions. Blank, Layout and Cover
--                      compose the parts; Descriptions says what a callable gets.
--   Federation         src/codekg/federation.py, in the modules below, and routine_target_kinds of
--                      src/codekg/native_ir.py.
--   Federation/Facts   _signature_known, and what _database_edge_allowed asks of facts.
--   Federation/Session _remaining, _database_fact and _database_edge_allowed, as actions that pass on the
--                      cache, the budget and the readings of the clock. Sound: the cache does not show.
--   Federation/Paths   _bounded_paths. Extend, Search, Holds and Found say what it finds.
--   Federation/Reach   _python_reachable. Chains, Seen and Complete say what it finds.
--   Federation/Resolve _resolve, and Resolved: what its conclusions rest on.
--   Lifecycle          src/codekg/graph_lifecycle.py, in the modules below.
--   Lifecycle/Files    _atomic_write over a store of files that keeps every state which a crash could
--                      leave. Atomic and Distinct: what it keeps at each moment.
--   Lifecycle/Activate activate_registry and rollback_registry. Writes, Safe, Explained,
--                      Activated and RolledBack.
--
-- Texts are lists of code points, compared as Python compares str. A method that reads or writes
-- the cache of orders returns an answer with the new cache. A recursion that Python bounds only by
-- its stack has a depth here and answers none when the depth runs out: `mro` takes the depth of the
-- recursion through bases, which resolve_call_sites sets to one more than the number of types; the
-- rounds of the merge are the number of items in the sequences; the walk over the enclosing scopes
-- gets one more round than the owner has characters; the loop over the lines of a section gets two
-- more rounds than it has lines. That these are enough is among the results.
--
-- Both searches of the federation get 1001 rounds, since each round but the last visits a node.
-- What stays within a module asks others through records of look-ups: ResolverIndex for the resolver,
-- Catalog and Side for the federation, whose Clock says at which readings a deadline has passed.
--
-- Parameters, since their code is not in the repository: `parse_attribute` is ast.parse of an
-- expression, with the test that it is an attribute of a name; `is_word` and `other_word` are the
-- class \w of re; `fails`, `random` and `is_symlink` are the operating system's: which operations on
-- files fail, what mkstemp puts in a name, and what is a symbolic link; `quoted` is which fields
-- csv.writer puts in quotes. Parameters, since their code
-- is not modelled: GraphRegistry.load and the validator of backends, the catalogs of graphs. Nothing
-- is assumed of any, but that a page of neighbors has at most the 100 edges that are asked for, and
-- that csv.writer quotes as its documentation of QUOTE_MINIMAL says. No
-- other process writes the files that an activation reads and writes.
--
-- Not modelled: the parsers, the database drivers and SQL or Cypher texts, the command line, and
-- the parts of src/codekg that no file above names.
pub mod Prelude
pub mod Ir
pub mod Resolver
pub mod SqlResolver
pub mod SourceLocations
pub mod CsvLimits
pub mod Docs
pub mod Federation
pub mod Lifecycle
