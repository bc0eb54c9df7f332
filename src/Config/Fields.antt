-- ===== src/Config/Fields.antt =====
-- The tables of config.py: the numeric fields with their ranges and their defaults.
use ezsql.Base.{ℕ, String, [], ◌∷◌}
use ezsql.Base.Dict.{Dict}
use ezsql.Base.Int.{ℤ, pos}

-- `_CLAMP_RANGES`
abbrev pub clamp_ranges : Dict String (ℕ × ℕ)
clamp_ranges =
    ("cache_max_size_mb", (1, 1024))
    ∷ ("cache_max_entries", (16, 65536))
    ∷ ("task_ttl_seconds", (60, 86400))
    ∷ ("max_file_size", (1, 104857600))
    ∷ ("max_files_per_scan", (100, 500000))
    ∷ ("max_total_bytes", (1024, 4294967296))
    ∷ ("max_scan_depth", (1, 100))
    ∷ ("max_sql_input_bytes", (1024, 104857600))
    ∷ ("max_sec_files", (1, 10000))
    ∷ ("max_total_file_bytes", (1024, 4294967296))
    ∷ ("max_statements", (1, 100000))
    ∷ ("max_findings", (10, 10000))
    ∷ ("max_candidates", (1, 1000))
    ∷ ("max_parser_warnings", (10, 1000))
    ∷ ("max_parse_errors", (1, 1000))
    ∷ ("max_analysis_tables", (10, 10000))
    ∷ ("max_analysis_columns", (10, 50000))
    ∷ ("max_analysis_joins", (1, 5000))
    ∷ ("max_analysis_predicates", (1, 10000))
    ∷ ("max_message_length", (100, 10000))
    ∷ ("max_snippet_length", (50, 5000))
    ∷ ("max_explain_sql_bytes", (1024, 4194304))
    ∷ ("max_plan_response_bytes", (65536, 16777216))
    ∷ ("max_plan_nodes", (50, 5000))
    ∷ ("max_plan_depth", (8, 256))
    ∷ ("max_plan_condition_chars", (64, 8192))
    ∷ ("db_pool_min_size", (1, 10))
    ∷ ("db_pool_max_size", (1, 20))
    ∷ ("max_database_adapters", (1, 16))
    ∷ ("db_connect_timeout_seconds", (1, 60))
    ∷ ("db_acquire_timeout_seconds", (1, 60))
    ∷ ("explain_ttl_seconds", (60, 86400))
    ∷ ("max_explain_candidates", (1, 50))
    ∷ ("explain_statement_timeout_seconds", (1, 300))
    ∷ ("explain_lock_timeout_seconds", (1, 60))
    ∷ ("explain_total_timeout_seconds", (2, 360))
    ∷ ("runtime_enrichment_timeout_seconds", (5, 600))
    ∷ ("max_schema_files", (1, 10000))
    ∷ ("max_schema_file_bytes", (1024, 16777216))
    ∷ ("max_schema_total_bytes", (1024, 67108864))
    ∷ ("llm_token_budget", (256, 1000000))
    ∷ ("llm_timeout_seconds", (5, 120))
    ∷ ("max_advisory_chars", (256, 65536))
    ∷ ("max_requirements_bytes", (1024, 4194304))
    ∷ ("max_error_input_bytes", (64, 1048576))
    ∷ ("max_context_input_bytes", (64, 1048576))
    ∷ ("max_design_tables", (1, 500))
    ∷ ("max_design_columns", (1, 5000))
    ∷ ("max_hypotheses", (1, 100))
    ∷ ("max_catalog_matches", (1, 50))
    ∷ ("max_doc_sections", (1, 100))
    ∷ ("max_doc_section_chars", (256, 65536))
    ∷ []

-- The defaults of the fields of type `int`.
abbrev pub number_defaults : Dict String ℤ
number_defaults =
    ("llm_token_budget", pos 4000)
    ∷ ("llm_timeout_seconds", pos 30)
    ∷ ("max_advisory_chars", pos 8192)
    ∷ ("max_requirements_bytes", pos 262144)
    ∷ ("max_error_input_bytes", pos 65536)
    ∷ ("max_context_input_bytes", pos 65536)
    ∷ ("max_design_tables", pos 100)
    ∷ ("max_design_columns", pos 1000)
    ∷ ("max_hypotheses", pos 20)
    ∷ ("max_catalog_matches", pos 10)
    ∷ ("max_doc_sections", pos 20)
    ∷ ("max_doc_section_chars", pos 8192)
    ∷ ("cache_max_size_mb", pos 50)
    ∷ ("cache_max_entries", pos 4096)
    ∷ ("task_ttl_seconds", pos 3600)
    ∷ ("max_file_size", pos 1048576)
    ∷ ("max_files_per_scan", pos 50000)
    ∷ ("max_total_bytes", pos 268435456)
    ∷ ("max_scan_depth", pos 20)
    ∷ ("max_sql_input_bytes", pos 4194304)
    ∷ ("max_sec_files", pos 200)
    ∷ ("max_total_file_bytes", pos 33554432)
    ∷ ("max_statements", pos 10000)
    ∷ ("max_findings", pos 1000)
    ∷ ("max_candidates", pos 50)
    ∷ ("max_parser_warnings", pos 100)
    ∷ ("max_parse_errors", pos 100)
    ∷ ("max_analysis_tables", pos 500)
    ∷ ("max_analysis_columns", pos 5000)
    ∷ ("max_analysis_joins", pos 200)
    ∷ ("max_analysis_predicates", pos 1000)
    ∷ ("max_message_length", pos 2048)
    ∷ ("max_snippet_length", pos 512)
    ∷ ("max_explain_sql_bytes", pos 262144)
    ∷ ("max_plan_response_bytes", pos 2097152)
    ∷ ("max_plan_nodes", pos 500)
    ∷ ("max_plan_depth", pos 64)
    ∷ ("max_plan_condition_chars", pos 1024)
    ∷ ("db_pool_min_size", pos 1)
    ∷ ("db_pool_max_size", pos 5)
    ∷ ("max_database_adapters", pos 4)
    ∷ ("db_connect_timeout_seconds", pos 10)
    ∷ ("db_acquire_timeout_seconds", pos 5)
    ∷ ("explain_ttl_seconds", pos 3600)
    ∷ ("max_explain_candidates", pos 5)
    ∷ ("explain_statement_timeout_seconds", pos 30)
    ∷ ("explain_lock_timeout_seconds", pos 5)
    ∷ ("explain_total_timeout_seconds", pos 45)
    ∷ ("runtime_enrichment_timeout_seconds", pos 90)
    ∷ ("max_schema_files", pos 1000)
    ∷ ("max_schema_file_bytes", pos 4194304)
    ∷ ("max_schema_total_bytes", pos 33554432)
    ∷ []
