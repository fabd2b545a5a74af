-- ===== src/MontageV2/Ass.antt =====
-- docs/video/edicion/montaje_v2.py: `write_ass` and `write_srt`. `e` ticks are a tenth of a second, in
-- which the source writes its bounds of 4.2 and 4.4 seconds.
use telematica_telemetria.Base.{
  ℕ, ◌+◌, ◌*◌, ◌&&◌, List, [], ◌∷◌, ◌++◌, map, if◌then◌else◌, leb, ltb, ◌==◌,
}
use telematica_telemetria.Base.Text.{Text, codes}
use telematica_telemetria.Montage.Cues.{Cue}
use telematica_telemetria.Montage.Lines
use telematica_telemetria.Montage.Stamp.{ass_time}
use telematica_telemetria.Montage.Srt.{write_cues}
use telematica_telemetria.Montage.Timeline.{Clip, remap, kept, moved}
use telematica_telemetria.Montage.Ass.{write_lines}

-- `two_lines`, with its width
unfoldable pub two_lines : Text → Text
two_lines t = Lines.two_lines 58 t

-- `ASS_HEAD`
unfoldable pub ass_head : Text
ass_head = write_lines (
    codes "[Script Info]"
    ∷ codes "ScriptType: v4.00+"
    ∷ codes "PlayResX: 1920"
    ∷ codes "PlayResY: 1080"
    ∷ codes "WrapStyle: 2"
    ∷ []
    ∷ codes "[V4+ Styles]"
    ∷ codes
        "Format: Name, Fontname, Fontsize, PrimaryColour, SecondaryColour, OutlineColour, BackColour, Bold, Italic, Underline, StrikeOut, ScaleX, ScaleY, Spacing, Angle, BorderStyle, Outline, Shadow, Alignment, MarginL, MarginR, MarginV, Encoding"
    ∷ codes
        "Style: Sub,Segoe UI Semibold,46,&H00FFFFFF,&H00FFFFFF,&H30000000,&H70000000,0,0,0,0,100,100,0.4,0,1,2,4,2,160,160,48,1"
    ∷ []
    ∷ codes "[Events]"
    ∷ codes "Format: Layer, Start, End, Style, Name, MarginL, MarginR, MarginV, Effect, Text"
    ∷ [])

-- the cues of a clip, as `render_clip` gives them to `write_ass`
unfoldable pub ass_cues : Clip → List Cue
ass_cues c = map (moved (remap c)) (kept c c.cues)

-- the cues that the loop writes, with the times it writes: those of a clip, whose offset is 0, start
-- behind the section card
unfoldable pub shown : ℕ → ℕ → List Cue → List Cue
shown e offset [] = []
shown e offset (c ∷ cues) =
    let rest = shown e offset cues in
    if offset == 0 && ltb c.start (42 * e)
    then (if leb c.stop (44 * e) then rest else record c { start = 42 * e } ∷ rest)
    else c ∷ rest

unfoldable pub dialogue : ℕ → ℕ → Cue → Text
unfolding two_lines
dialogue e offset c =
    codes "Dialogue: 0,"
    ++ ass_time (10 * e) (c.start + offset)
    ++ codes ","
    ++ ass_time (10 * e) (c.stop + offset)
    ++ codes ",Sub,,0,0,0,,{\\fad(120,120)}"
    ++ two_lines c.text

-- `write_ass`
unfoldable pub write_ass : ℕ → List Cue → ℕ → Text
unfolding ass_head shown dialogue
write_ass e cues offset = ass_head ++ write_lines (map (dialogue e offset) (shown e offset cues))

-- `write_srt`, with the width of `two_lines`
unfoldable pub write_srt : ℕ → List Cue → ℕ → Text
write_srt d cues offset = write_cues 58 d offset 1 cues
