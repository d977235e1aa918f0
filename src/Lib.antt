-- ===== src/Lib.antt =====
-- Models and proofs of the decision core of the RansomGuard EDR: the scoring engine, the process
-- responder, the detectors of file, process and registry activity, the incident reporter, and the rules
-- on which processes are protected or trusted.
--
-- How the program works. Detectors (detectors/*.py) submit signals to the scoring engine (scoring.py),
-- which sums the weights of a sliding window, leaves out trusted actors, and calls its listeners. One
-- listener is the process responder (responder.py): it quarantines a process through the driver's
-- bridge and terminates it, unless it is protected or allowlisted, and then takes the process's signals
-- out of the live score; what it does reaches the incident
-- reporter (incident_report.py), which writes reports and groups them to campaigns. Other listeners are
-- detectors that a canary puts on alert. The dashboard (dashboard/app.py) lets an operator with the token
-- change the mode, kill and release processes, and edit the allowlist.
--
-- Files.
--   Prelude       shared names: Boolean tests, lists, texts, paths and dictionaries of Python.
--   Signal        scoring.py: Signal and Severity; metadata values; the PID that a signal names.
--   Scoring       scoring.py: ScoringEngine. Spec states the score without loops; Forget, Window, Order
--                 and Submit have its laws.
--   Protection    responder.py: the never-kill list and _is_never_kill; detectors/process_watcher.py:
--                 is_masquerading.
--   Responder     responder.py: ProcessResponder. Types has its data and the answers of psutil, Win32,
--                 the driver and the allowlist; Listener has _dispatch and the operator's orders,
--                 Reporting the callback that hands an action to the reporter.
--   PidCache      the cache from PIDs and creation times to answers that allowlist.py and
--                 actor_trust.py share in form.
--   Allowlist     allowlist.py: Allowlist. Races splits pid_allowed in its two locked parts.
--   ActorTrust    actor_trust.py: the classifier of trusted programs, and the test that the agent gives
--                 to the engine.
--   Detector      detectors/base.py: what a detector hands to the engine.
--   Minifilter    detectors/minifilter_bridge.py: Kind has the constants of the protocol, Accounting the
--                 burst accounts of each PID, Handling the handling of an event, Port the connection,
--                 its commands and its loops. History, Windows, Backing, Bursts, Detection, Filters,
--                 Sessions and Receiving have proofs.
--   RegistryKernel  detectors/registry_kernel.py: RegistryKernelDetector.
--   RansomNote    detectors/ransom_note.py: RansomNoteDetector and analyze_note_content.
--   MassIo        detectors/mass_io.py: MassIODetector.
--   Canary        detectors/canary.py: CanaryDetector.
--   CommandLine   detectors/process_cmdline.py and detectors/process_kernel.py: the rules on command
--                 lines and the detectors that apply them.
--   PidTable      dictionaries by PID.  Deque: the deques of times.  Ranking: sorting by a rank.
--   ProcessWatcher  detectors/process_watcher.py: the scan of the processes. Types has its data, Chains
--                 the table of suspicious parents, Judging the checks; Tracking, Known and Once have
--                 proofs.
--   Damage        incident_report.py: summarize_damage and verify_damage_on_disk. Scan has the tally and
--                 the folder scan of scan_damage.py; Sets and Tally have proofs.
--   Reporter      incident_report.py: IncidentReporter. FileNames has the names of the files, Joining the
--                 campaigns, Reading the answers to the dashboard, Behaviors the threats that the report of
--                 a campaign lists; Runs the events. Notify, Guard, Dedup, Grouping, Campaigns, Closing and
--                 Listing have proofs.
--   Dashboard     dashboard/app.py: the authentication and the routes that change the agent.
--   Config        config.py: the settings and their sections; Loading has load, and from agent.py what
--                 main starts the agent with.
--   AttackMap     attack_map.py. Table has the techniques and the signals.
--   Postmortem    postmortem.py: isolate_last_session and build_timeline; scan_damage.py: last_session.
--   Integrations  integrations.py: Cef has the CEF line, Forwarder the queue and its worker.
--   Watchdog      watchdog_service.py: the loop that restarts the agent.
--   Agent         agent.py: the breakdown of the score that the agent's answers show.
--
-- Conventions. Times are whole microseconds, so rounding of Python's floats is not modelled; a clock
-- reading is an argument, and a handler reads the clock once. A method that mutates returns the new
-- state. A lock makes the code under it one step. Weights are not negative. Object identity, which
-- `exclude` compares, is the field `ident`. Texts are native strings; `lower` and `normcase` change the
-- ASCII letters. Message texts and console output are left out; an error text is a constructor that
-- holds the values it shows. The metadata keys `process` and `cmdline` are read as texts. What psutil,
-- Win32, fltlib, the driver, the service manager and the file system answer is an argument of each
-- handler, and so is what `re` finds in a text; of these answers nothing is assumed but what a theorem
-- states: those on the PID caches of allowlist.py and actor_trust.py take it that psutil tells the same of
-- a PID and creation time each time, refusals included. The entropy of a
-- file is given with the file, in thousandths of a bit. No theorem rests on fuel: every loop here is a
-- recursion on a list, of the entries, of the events or of the answers that the loop meets. The one fuel
-- is that of the digits of a PID in a file's name, its value and one; decimal_within_enough shows that any
-- more gives the same digits.
--
-- Not modelled: the Windows services and consoles, the event store, the routes of the dashboard that only
-- read, the texts of the reports, the native popups and the sends over the network, which are input and
-- output; and of postmortem.py the damage of decoys.
mod Prelude
pub mod Signal
pub mod Deque
pub mod PidTable
pub mod Ranking
pub mod Damage
pub mod Reporter
pub mod Dashboard
pub mod Config
pub mod AttackMap
pub mod Postmortem
pub mod ProcessWatcher
pub mod Scoring
pub mod Protection
pub mod Responder
pub mod PidCache
pub mod Allowlist
pub mod ActorTrust
pub mod Detector
pub mod Minifilter
pub mod RegistryKernel
pub mod Watchdog
pub mod Agent
pub mod RansomNote
pub mod MassIo
pub mod Integrations
pub mod Canary
pub mod CommandLine
