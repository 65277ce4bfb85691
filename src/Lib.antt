-- ===== src/Lib.antt =====
-- decision-memory answers questions from a corpus of decision records. A query reads an index, ranks
-- its chunks, asks a provider for an answer and prints only what the evidence supports. This library
-- models the part of it that decides: which records are valid, how they are cut into chunks and
-- ingested, which chunks are searched and in which order, which records a query may read, and when a
-- generated sentence counts as supported.
--
-- The parts, with the files of the repository under src/decision_memory/application:
--   Morphology      morphology.py: `stem_match` is `_stem_match`, `base_set` and `base_sets_intersect`
--                   have their names.
--   Vocabulary,     verification.py: the closed word sets, containment, `tokens_match`, the additive
--   Verification    half `sub_claim_is_additive_free`, the completeness half `response_is_complete`,
--                   and `classify_decomposition_detail`. Tokens are compared by Morphology.
--   Tokenizer       lexical.py: the scan of `tokenize` and the stopwords.
--   Dto             dto.py: the records that the stages pass on, and SourceReference of canonical.py.
--   Records         ../domain/records.py: the record types. Its children have the checks of the fields and
--                   of the evidence in ../domain/validation.py, and Validation the rest and
--                   `validate`; its child Service is validation_service.py.
--   Adapters        adapter.py and corpus_validation.py: Adapt has `adapt_corpus` and Corpus has
--                   `validate_corpus`, over the answers of one adapter.
--   Doctor          ../domain/doctor.py and doctor_service.py: the survey of a corpus.
--   ValuePath       chunking.py: `is_valid_value_path`, its regular expression as a scan.
--   Chunking        chunking.py: Units has the values of a record, Sentences the cutting of their texts,
--                   Packing and Overlap the packing of the pieces, and Chunking `chunk_record`.
--   Ingest          ingest.py: Batches has the embedding in batches, Entries one manifest entry, which
--                   uses Chunking, and Ingest the run over the manifest and the dry run.
--   Filters         filters.py: `build_query_filters`, `matches_value_path`, `filter_descriptors`.
--   Freshness, Gate query.py: `_manifest_freshness`, and `query_index` up to the lexical stage. The
--                   gate filters by Filters and hands the accepted chunks to the retrieval.
--   Retrieval       query.py: Ranking has `stable_sort_key`; Lexical, Fusion and Diversity are
--                   `_lexical_stage`, `_fusion_stage` and `_diversity_stage`; Semantic is the stage
--                   between them, which `query_index` has in line. Fusion merges the two rankings,
--                   and Diversity selects at most eight of the fused candidates.
--   Citations       query.py: `_allocate_citations`, over the sentences that were emitted.
--   Disclosures     query.py: `_collect_notices` and `_render_disclosures`. The disclosures are cited
--                   behind what Citations allocates and read the manifest of Ingest.
--   Claims          query.py: the loop of `query_index` over the draft sentences. `verify_sentence` is
--                   its body, with the retry in `decompose_sentence`; it uses Verification.
--   Prelude, Text, Sorting  what the parts share: Boolean tests, lists, dictionaries, the string
--                   methods and the stable sort of Python.
--
-- A `str` is the list of its code points, a tuple or list is a list, a set that is only tested for
-- members is a list, a dictionary is a list of pairs in insertion order. The store that ingestion
-- writes is the list of the changes made to it. An exception is `none` of an option, or a
-- constructor of a result type. Loops are structural recursion, so no fuel is needed.
--
-- Parameters, for code that is not the program's: NFKC with case folding (`fold`), lower casing
-- (`lower`), Unicode categories, the arithmetic of floats (`FloatOps`), the BM25 scorer, the token
-- counter, `int(n * 0.15)`, `repr`, `date.fromisoformat`, JSON and SHA-256, `Path.resolve` and
-- `Path.relative_to`, the source resolver, and what the provider, the store and the file readers
-- answer.
-- Where a theorem needs a law of one of them, the law is a hypothesis.
--
-- Not modelled: error messages and trace records that are only printed, the provider calls, the SQL
-- and Chroma stores, files and configuration, the command line, the parsers of the adapters, a
-- contributing file that is not under the root of its corpus, the assembly of the query result, and
-- the evaluation oracles.

pub mod Prelude
pub mod Text
pub mod Sorting
pub mod Ingest
pub mod Morphology
pub mod Vocabulary
pub mod Validation
pub mod Verification
pub mod Disclosures
pub mod Doctor
pub mod Dto
pub mod Tokenizer
pub mod ValuePath
pub mod Filters
pub mod Records
pub mod Retrieval
pub mod Adapters
pub mod Chunking
pub mod Citations
pub mod Claims
pub mod Freshness
pub mod Gate
