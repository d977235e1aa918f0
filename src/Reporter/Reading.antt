-- ===== src/Reporter/Reading.antt =====
-- incident_report.py: recent and read_report of IncidentReporter.
use xodusmile.Prelude.{
  ℕ, String, Bool, ◌&&◌, Option, none, some, List, [], ◌∷◌, ◌++◌, leb, ◌==◌, if◌then◌else◌, keep,
  any, length, take, map, begins_with, is_empty,
}
use xodusmile.Ranking.{rank}
use xodusmile.Reporter.FileNames.{is_plain}
use xodusmile.Reporter.Joining.{Member, Campaign}
use xodusmile.Reporter.{IncidentRecord, Reporter}

-- A row of the list of reports.
pub data ListRow : Type 0 where
  incident_row : IncidentRecord → ListRow
  campaign_row :
      (timestamp pid : ℕ) (lead : String) (count : ℕ) (terminated quarantined : Bool)
      (filename : String)
      → ListRow

abbrev pub row_timestamp : ListRow → ℕ
row_timestamp (incident_row x) = x.timestamp
row_timestamp (campaign_row timestamp pid lead count terminated quarantined filename) = timestamp

abbrev lead_pid : List Member → ℕ
lead_pid [] = 0
lead_pid (x ∷ members) = x.pid

abbrev lead_name : List Member → String
lead_name [] = "알 수 없음"
lead_name (x ∷ members) = if is_empty x.name then "알 수 없음" else x.name

-- `_campaign_record`
unfoldable pub campaign_record : Campaign → ListRow
unfolding any
campaign_record c =
    campaign_row (if c.finalized_ts == 0 then c.last_ts else c.finalized_ts) (lead_pid c.members)
      (lead_name c.members) (length c.pids) (any (λ (x : Member). x.terminated) c.members)
      (any (λ (x : Member). x.quarantined) c.members) c.filename

-- A campaign is shown once it is final and has two processes or more.
abbrev pub is_shown : Campaign → Bool
is_shown c = c.finalized && leb 2 (length c.pids)

unfoldable pub items : Reporter → List ListRow
unfolding campaign_record keep
items r = map incident_row r.records ++ map campaign_record (keep is_shown r.campaigns)

abbrev pub newer : ListRow → ListRow → Bool
newer a b = leb (row_timestamp b) (row_timestamp a)

unfoldable pub recent : ℕ → Reporter → List ListRow
unfolding items
recent limit r = take limit (rank newer (items r))

-- The folder of the reports: where a file name leads once links are resolved, and what is there. `none`
-- is an OSError.
pub record Folder : Type 0 where
  pub root : String
  pub resolve : String → Option String
  pub is_file : String → Bool
  pub read_text : String → Option String

abbrev read_at : Folder → Option String → Option String
read_at folder none = none
read_at folder (some path) =
    if begins_with path folder.root && folder.is_file path then folder.read_text path else none

unfoldable pub read_report : Folder → String → Option String
unfolding is_plain
read_report folder filename =
    if is_plain filename then read_at folder (folder.resolve filename) else none
