-- ===== src/Montage/Ass.antt =====
-- docs/video/edicion/montaje.py: `write_ass`.
use telematica_telemetria.Base.{ℕ, ◌+◌, List, [], ◌∷◌, ◌++◌}
use telematica_telemetria.Base.Text.{Text, codes}
use telematica_telemetria.Montage.Cues.{Cue}
use telematica_telemetria.Montage.Lines.{two_lines}
use telematica_telemetria.Montage.Stamp.{ass_time}

abbrev pub write_lines : List Text → Text
write_lines [] = []
write_lines (l ∷ lines) = l ++ b'\n' ∷ write_lines lines

-- `ASS_HEAD`
unfoldable pub ass_head : Text
ass_head = write_lines (
    codes "[Script Info]"
    ∷ codes "ScriptType: v4.00+"
    ∷ codes "PlayResX: 1920"
    ∷ codes "PlayResY: 1080"
    ∷ codes "WrapStyle: 2"
    ∷ []
    ∷ codes "[V4+ Styles]"
    ∷ codes
        "Format: Name, Fontname, Fontsize, PrimaryColour, SecondaryColour, OutlineColour, BackColour, Bold, Italic, Underline, StrikeOut, ScaleX, ScaleY, Spacing, Angle, BorderStyle, Outline, Shadow, Alignment, MarginL, MarginR, MarginV, Encoding"
    ∷ codes
        "Style: Sub,Segoe UI,46,&H00FFFFFF,&H00FFFFFF,&H00101010,&H96000000,-1,0,0,0,100,100,0,0,3,3,0,2,120,120,48,1"
    ∷ []
    ∷ codes "[Events]"
    ∷ codes "Format: Layer, Start, End, Style, Name, MarginL, MarginR, MarginV, Effect, Text"
    ∷ [])

-- the line of one cue, with `d` ticks to a second
unfoldable pub dialogue : ℕ → ℕ → Cue → Text
dialogue d offset c =
    codes "Dialogue: 0,"
    ++ ass_time d (c.start + offset)
    ++ codes ","
    ++ ass_time d (c.stop + offset)
    ++ codes ",Sub,,0,0,0,,"
    ++ two_lines 42 c.text

unfoldable pub dialogues : ℕ → ℕ → List Cue → List Text
unfolding dialogue
dialogues d offset [] = []
dialogues d offset (c ∷ cues) = dialogue d offset c ∷ dialogues d offset cues

-- `write_ass`
unfoldable pub write_ass : ℕ → List Cue → ℕ → Text
unfolding ass_head dialogues
write_ass d cues offset = ass_head ++ write_lines (dialogues d offset cues)
