-- ===== src/Detector.antt =====
-- detectors/base.py: what a detector hands to the engine. `emit` is `engine.submit`; a detector's
-- model keeps the signals that it has emitted, the newest first.
use xodusmile.Prelude.{ℕ, String, List, ◌∷◌, length}
use xodusmile.Signal.{Severity, Metadata, Signal}

-- `self.emit(Signal(detector, name, weight, severity, …, metadata))` at a clock reading. Each signal
-- is a new object.
unfoldable pub emit : String → String → ℕ → Severity → Metadata → ℕ → List Signal → List Signal
emit detector name weight severity metadata now emitted =
    record {
      ident = length emitted;
      detector = detector;
      name = name;
      weight = weight;
      severity = severity;
      metadata = metadata;
      timestamp = now;
    }
    ∷ emitted
