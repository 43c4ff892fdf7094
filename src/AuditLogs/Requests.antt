-- ===== src/AuditLogs/Requests.antt =====
-- Fetching audit logs: admin-dashboard/lib/admin/audit-logs-api.ts.
use telecam.Prelude.{◌++◌, List, ◌∷◌, Option, none, some, get_or, ℕ, All}
use telecam.Text.{Text, text, text_eq, decimal}
use telecam.Session.World.{Env, World, M, pure, ◌>>=◌}
use telecam.Session.Queries.{set_if, set_unless_all, query_of, fetch_and}
use telecam.AuditLogs.Logs.{NormalizedAuditLog}
use telecam.AuditLogs.Read.{
  AuditLogsPage, normalize_audit_logs_page, enrich_audit_logs_with_camera_names,
}
use telecam.Session.SignedIn.{Triple, Anything, any-Triple, bind-Triple, pure-Triple}
use telecam.AuditLogs.Read.Laws.{
  HidesMetadata, normalize_audit_logs_page-HideMetadata, enriched-HideMetadata,
}

-- The numbers of the page are natural numbers.
pub record AuditLogFilters : Type 0 where
  pub school_id : Option Text
  pub user_id : Option Text
  pub camera_id : Option Text
  pub action : Option Text
  pub from : Option Text
  pub to : Option Text
  pub search : Option Text
  pub limit : Option ℕ
  pub offset : Option ℕ

abbrev pub page_size : ℕ
page_size = 50

-- No filters: `params` is `undefined`.
abbrev pub no_filters : AuditLogFilters
no_filters = record {
  school_id = none;
  user_id = none;
  camera_id = none;
  action = none;
  from = none;
  to = none;
  search = none;
  limit = none;
  offset = none;
}

module _ {N : Type 0} (env : Env N) (search_params : List (Text × Text) → Text) where
  unfoldable pub build_audit_logs_query : AuditLogFilters → Text
  unfolding decimal text_eq
  build_audit_logs_query p = query_of (
      search_params (
        (text "limit", decimal (get_or p.limit page_size))
        ∷ (text "offset", decimal (get_or p.offset 0))
        ∷ (set_if (text "school_id") p.school_id
            ++ (set_if (text "user_id") p.user_id
                ++ (set_if (text "camera_id") p.camera_id
                    ++ (set_unless_all (text "action") p.action (λ a. a)
                        ++ (set_if (text "date_from") p.from ++ set_if (text "date_to") p.to)))))))

  unfoldable pub get_audit_logs_page : AuditLogFilters → M N (AuditLogsPage N)
  get_audit_logs_page p =
      fetch_and env (text "/admin/audit-logs" ++ build_audit_logs_query p) (text "GET")
        (normalize_audit_logs_page env.js)

  -- `none` stands for no map or one without names.
  abbrev named_logs : Option (Text → Option Text) → AuditLogsPage N → List (NormalizedAuditLog N)
  named_logs none page = page.logs
  named_logs (some names) page = enrich_audit_logs_with_camera_names page.logs names

  unfoldable pub get_audit_logs :
      AuditLogFilters → Option (Text → Option Text) → M N (List (NormalizedAuditLog N))
  get_audit_logs p camera_names = do
    page ← get_audit_logs_page p
    pure (named_logs camera_names page)

  -- What the page is shown.
  abbrev pub Hidden : List (NormalizedAuditLog N) → World → Type 0
  Hidden logs v = All (HidesMetadata env.js) logs

  abbrev HiddenPage : AuditLogsPage N → World → Type 0
  HiddenPage page v = All (HidesMetadata env.js) page.logs

  named_logs-Hidden :
      (names : Option (Text → Option Text)) (page : AuditLogsPage N) (v : World)
      → HiddenPage page v
      → Hidden (named_logs names page) v
  named_logs-Hidden none page v h = h
  named_logs-Hidden (some names) page v h = enriched-HideMetadata env.js names page.logs h

  get_audit_logs_page-Hidden :
      (p : AuditLogFilters) → Triple Anything (get_audit_logs_page p) HiddenPage
  unfolding get_audit_logs_page
  get_audit_logs_page-Hidden p = bind-Triple (any-Triple _) λ raw.
      pure-Triple (normalize_audit_logs_page env.js raw)
        (λ w _. normalize_audit_logs_page-HideMetadata env.js raw)

  -- Whatever the server answers, the audit logs that the request returns hold nothing but the mask
  -- under a sensitive key of their metadata, at any depth, with camera names or without.
  pub get_audit_logs-Hidden :
      (p : AuditLogFilters) (names : Option (Text → Option Text))
      → Triple Anything (get_audit_logs p names) Hidden
  unfolding get_audit_logs
  get_audit_logs-Hidden p names =
      bind-Triple (get_audit_logs_page-Hidden p)
        λ page. pure-Triple (named_logs names page) (λ w h. named_logs-Hidden names page w h)
