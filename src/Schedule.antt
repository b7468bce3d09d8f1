-- ===== src/Schedule.antt =====
-- shared/runtime/schedule.py: the registry of the scheduled jobs.
pub mod Unique
use loop_revops_agents.Base.{String, Option, none, some, List, [], ◌∷◌, ◌++◌, str_eq, if◌then◌else◌}

pub record Job : Type 0 where
  pub name : String
  pub cron : String
  pub callable_path : String
  pub description : String

abbrev oo_jobs : List Job
oo_jobs =
    record {
      name = "oo-daemon";
      cron = "@reboot";
      callable_path = "agents.oo.main:run_daemon";
      description = "OO Agent Slack Socket Mode daemon (always-on)";
    }
    ∷ record {
      name = "oo-briefing-daily";
      cron = "30 8 * * 1-5";
      callable_path = "agents.oo.briefings:send_daily_briefing";
      description = "Daily 8:30 AM briefing to O";
    }
    ∷ record {
      name = "oo-briefing-weekly";
      cron = "0 16 * * 5";
      callable_path = "agents.oo.briefings:send_weekly_review";
      description = "Friday 4 PM weekly review";
    }
    ∷ record {
      name = "oo-board-monitor";
      cron = "*/15 * * * *";
      callable_path = "agents.oo.board_monitor:scan";
      description = "Passive Slack + Fireflies scan (every 15 min)";
    }
    ∷ record {
      name = "oo-integration-health";
      cron = "*/30 * * * *";
      callable_path = "agents.oo.integration_health:poll";
      description = "Integration health poll (every 30 min)";
    }
    ∷ []

abbrev onboarding_jobs : List Job
onboarding_jobs =
    record {
      name = "onboarding-closed-won-poller";
      cron = "*/5 * * * *";
      callable_path = "agents.onboarding.closed_won_poller:poll";
      description = "Create Onboarding__c for new Closed Won opps (idempotent)";
    }
    ∷ record {
      name = "onboarding-milestone-monitor";
      cron = "0 */6 * * *";
      callable_path = "agents.onboarding.milestone_monitor:scan";
      description = "Stall detection across JK_Onboarding_Stage__c + Overall status";
    }
    ∷ record {
      name = "onboarding-location-sweep";
      cron = "0 9 * * *";
      callable_path = "agents.onboarding.location_activation:sweep";
      description = "Daily stuck-location classifier";
    }
    ∷ record {
      name = "onboarding-jackie-digest";
      cron = "0 9 * * 5";
      callable_path = "agents.onboarding.dispatcher:send_jackie_weekly_digest";
      description = "Friday 9 AM ET weekly CS digest to Jackie";
    }
    ∷ []

abbrev top_of_funnel_jobs : List Job
top_of_funnel_jobs =
    record {
      name = "top-of-funnel-enrichment-pipeline";
      cron = "0 2 * * 1-5";
      callable_path = "agents.top_of_funnel.enrichment.pipeline:run_pipeline";
      description = "Nightly Apollo+Clay enrichment + ICP scoring + SF Lead create";
    }
    ∷ record {
      name = "top-of-funnel-daily-briefing";
      cron = "55 7 * * 1-5";
      callable_path = "agents.top_of_funnel.daily_briefing:send_daily_briefing";
      description = "07:55 Mon-Fri SDR lead-list DMs + Hutch summary";
    }
    ∷ []

abbrev cs_jobs : List Job
cs_jobs =
    record {
      name = "cs-integration-health";
      cron = "*/30 * * * *";
      callable_path = "agents.cs.integration_health:poll";
      description = "CS-specific integration health probes (every 30 min)";
    }
    ∷ record {
      name = "cs-health-poll";
      cron = "0 */2 * * *";
      callable_path = "agents.cs.health.health_monitor:poll";
      description = "Vitally sync + drop detection (every 2h)";
    }
    ∷ record {
      name = "cs-churn-sweep";
      cron = "0 10 * * *";
      callable_path = "agents.cs.risk.churn_risk:run_sweep";
      description = "Daily 06:00 ET churn-risk scoring + tier routing";
    }
    ∷ record {
      name = "cs-renewal-pipeline";
      cron = "0 11 * * *";
      callable_path = "agents.cs.renewal.pipeline:run_sweep";
      description = "Daily 07:00 ET T-120 renewal-opp sweep";
    }
    ∷ record {
      name = "cs-renewal-stall";
      cron = "0 12 * * *";
      callable_path = "agents.cs.renewal.stall_monitor:run_sweep";
      description = "Daily 08:00 ET stall check on open Renewal opps";
    }
    ∷ record {
      name = "cs-expansion-scan";
      cron = "0 13 * * *";
      callable_path = "agents.cs.expansion.expansion_detector:run_sweep";
      description = "Daily 09:00 ET expansion-signal sweep (Fireflies + SF)";
    }
    ∷ record {
      name = "cs-weekly-report";
      cron = "0 11 * * 1";
      callable_path = "agents.cs.reports.weekly:send";
      description = "Monday 07:00 ET weekly CS digest to Jackie + #agent-cs-log";
    }
    ∷ []

abbrev revops_jobs : List Job
revops_jobs =
    record {
      name = "revops-support-metadata-refresh";
      cron = "0 2 * * 0";
      callable_path = "agents.revops_support.knowledge_refresh.scheduler:run_weekly_snapshot";
      description =
          "Sunday 02:00 UTC SF metadata snapshot (object model + automations + users/roles)";
    }
    ∷ record {
      name = "revops-support-metadata-digest";
      cron = "0 9 * * 1";
      callable_path = "agents.revops_support.knowledge_refresh.scheduler:send_weekly_digest";
      description = "Monday 09:00 UTC knowledge-refresh diff digest to O";
    }
    ∷ record {
      name = "revops-support-cooldown-poller";
      cron = "*/15 * * * *";
      callable_path = "agents.revops_support.schema.cooldown_poller:poll";
      description = "Elevate cooled-down sf_schema_delete gates → _confirm child (every 15 min)";
    }
    ∷ []

abbrev slt_jobs : List Job
slt_jobs =
    record {
      name = "slt-morning-snapshot";
      cron = "30 6 * * 1-5";
      callable_path = "agents.slt_metrics.jobs:run_morning_snapshot";
      description = "06:30 M-F fetch open pipeline + write daily pipeline_snapshots";
    }
    ∷ record {
      name = "slt-daily-briefing";
      cron = "0 8 * * 1-5";
      callable_path = "agents.slt_metrics.jobs:run_daily_briefing";
      description = "08:00 M-F compose daily briefing → slt_draft_review gate in O's DM";
    }
    ∷ record {
      name = "slt-friday-review";
      cron = "30 15 * * 5";
      callable_path = "agents.slt_metrics.jobs:run_friday_review";
      description = "Friday 15:30 weekly review → slt_draft_review gate in O's DM";
    }
    ∷ []

abbrev sales_jobs : List Job
sales_jobs =
    record {
      name = "sales-reps-grader-poll";
      cron = "*/15 * * * *";
      callable_path = "agents.sales_reps.scheduler.jobs:grader_poll";
      description = "Every 15 min: grade new Fireflies transcripts (idempotent via storage)";
    }
    ∷ record {
      name = "sales-reps-brief-scan";
      cron = "*/15 * * * *";
      callable_path = "agents.sales_reps.scheduler.jobs:brief_scan";
      description = "Every 15 min: GCal demos in 90-120 min → pre-demo brief per Opp";
    }
    ∷ record {
      name = "sales-reps-sync-check";
      cron = "*/30 * * * *";
      callable_path = "agents.sales_reps.scheduler.jobs:sync_check";
      description = "Every 30 min: Momentum↔SF ActivityHistory diff (rate-gated alerts)";
    }
    ∷ record {
      name = "sales-reps-risk-sweep";
      cron = "0 */2 * * *";
      callable_path = "agents.sales_reps.scheduler.jobs:risk_sweep";
      description = "Every 2h: deal-risk sweep (pushed close / amount drop / competitor)";
    }
    ∷ record {
      name = "sales-reps-hygiene-daily";
      cron = "0 7 * * 1-5";
      callable_path = "agents.sales_reps.scheduler.jobs:hygiene_daily";
      description = "07:00 ET Mon-Fri: pipeline hygiene report (org-wide)";
    }
    ∷ record {
      name = "sales-reps-leaderboard-weekly";
      cron = "0 16 * * 5";
      callable_path = "agents.sales_reps.scheduler.jobs:leaderboard_weekly";
      description = "Friday 16:00 ET: AE + SDR leaderboard snapshot (Hutch-gated post)";
    }
    ∷ record {
      name = "sales-reps-scorecards-weekly";
      cron = "0 17 * * 5";
      callable_path = "agents.sales_reps.scheduler.jobs:scorecards_weekly";
      description = "Friday 17:00 ET: per-rep scorecards (Hutch-gated DMs first 4 weeks)";
    }
    ∷ []

unfoldable pub schedule : List Job
schedule =
    oo_jobs ++ onboarding_jobs ++ top_of_funnel_jobs ++ cs_jobs ++ revops_jobs ++ slt_jobs
    ++ sales_jobs

-- The first job of the name.
unfoldable pub by_name_in : String → List Job → Option Job
by_name_in name [] = none
by_name_in name (j ∷ js) = if str_eq j.name name then some j else by_name_in name js

unfoldable pub by_name : String → Option Job
unfolding by_name_in schedule
by_name name = by_name_in name schedule
