-- ===== src/EventAbi/Emitters.antt =====
-- api/eventabi/types.go: who ControlSignal.Validate compares an emitter with.
use realtime_speech_pipeline.Base.{Bool, true, false}
use realtime_speech_pipeline.EventAbi.Types.{Emitter}

abbrev pub from_rk03 : Emitter → Bool
from_rk03 Emitter.rk03 = true
from_rk03 _ = false

abbrev pub from_rk25 : Emitter → Bool
from_rk25 Emitter.rk25 = true
from_rk25 _ = false

-- RK-25 or CP-05
abbrev pub from_admission : Emitter → Bool
from_admission Emitter.rk25 = true
from_admission Emitter.cp05 = true
from_admission _ = false

abbrev pub from_rk13 : Emitter → Bool
from_rk13 Emitter.rk13 = true
from_rk13 _ = false

abbrev pub from_rk14 : Emitter → Bool
from_rk14 Emitter.rk14 = true
from_rk14 _ = false

-- RK-12 or RK-13
abbrev pub from_buffering : Emitter → Bool
from_buffering Emitter.rk12 = true
from_buffering Emitter.rk13 = true
from_buffering _ = false

abbrev pub from_rk15 : Emitter → Bool
from_rk15 Emitter.rk15 = true
from_rk15 _ = false

abbrev pub from_rk11 : Emitter → Bool
from_rk11 Emitter.rk11 = true
from_rk11 _ = false

-- CP-07 or CP-08
abbrev pub from_placement : Emitter → Bool
from_placement Emitter.cp07 = true
from_placement Emitter.cp08 = true
from_placement _ = false

abbrev pub from_rk24 : Emitter → Bool
from_rk24 Emitter.rk24 = true
from_rk24 _ = false

abbrev pub from_rk23 : Emitter → Bool
from_rk23 Emitter.rk23 = true
from_rk23 _ = false

-- RK-22 or RK-23
abbrev pub from_egress : Emitter → Bool
from_egress Emitter.rk22 = true
from_egress Emitter.rk23 = true
from_egress _ = false

abbrev pub from_or02 : Emitter → Bool
from_or02 Emitter.or02 = true
from_or02 _ = false
