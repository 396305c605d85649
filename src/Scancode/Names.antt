-- ===== src/Scancode/Names.antt =====
-- src/scancode_names.h: the names of the scancodes, by number.
use sdlop.Base.{String, List, [], ◌∷◌, ◌++◌, replicate}

-- Entries 0 to 63 of `sdlop_scancode_names`
names_from_0 : List String
names_from_0 =
    "" ∷ "" ∷ "" ∷ "" ∷ "A" ∷ "B" ∷ "C" ∷ "D" ∷ "E" ∷ "F" ∷ "G" ∷ "H" ∷ "I" ∷ "J" ∷ "K" ∷ "L" ∷ "M"
    ∷ "N" ∷ "O" ∷ "P" ∷ "Q" ∷ "R" ∷ "S" ∷ "T" ∷ "U" ∷ "V" ∷ "W" ∷ "X" ∷ "Y" ∷ "Z" ∷ "1" ∷ "2" ∷ "3"
    ∷ "4" ∷ "5" ∷ "6" ∷ "7" ∷ "8" ∷ "9" ∷ "0" ∷ "Return" ∷ "Escape" ∷ "Backspace" ∷ "Tab" ∷ "Space"
    ∷ "-" ∷ "=" ∷ "[" ∷ "]" ∷ "\\" ∷ "#" ∷ ";" ∷ "'" ∷ "`" ∷ "," ∷ "." ∷ "/" ∷ "CapsLock" ∷ "F1"
    ∷ "F2" ∷ "F3" ∷ "F4" ∷ "F5" ∷ "F6" ∷ []

-- Entries 64 to 127 of `sdlop_scancode_names`
names_from_64 : List String
names_from_64 =
    "F7" ∷ "F8" ∷ "F9" ∷ "F10" ∷ "F11" ∷ "F12" ∷ "PrintScreen" ∷ "ScrollLock" ∷ "Pause" ∷ "Insert"
    ∷ "Home" ∷ "PageUp" ∷ "Delete" ∷ "End" ∷ "PageDown" ∷ "Right" ∷ "Left" ∷ "Down" ∷ "Up"
    ∷ "Numlock" ∷ "Keypad /" ∷ "Keypad *" ∷ "Keypad -" ∷ "Keypad +" ∷ "Keypad Enter" ∷ "Keypad 1"
    ∷ "Keypad 2" ∷ "Keypad 3" ∷ "Keypad 4" ∷ "Keypad 5" ∷ "Keypad 6" ∷ "Keypad 7" ∷ "Keypad 8"
    ∷ "Keypad 9" ∷ "Keypad 0" ∷ "Keypad ." ∷ "NonUSBackslash" ∷ "Application" ∷ "Power" ∷ "Keypad ="
    ∷ "F13" ∷ "F14" ∷ "F15" ∷ "F16" ∷ "F17" ∷ "F18" ∷ "F19" ∷ "F20" ∷ "F21" ∷ "F22" ∷ "F23" ∷ "F24"
    ∷ "Execute" ∷ "Help" ∷ "Menu" ∷ "Select" ∷ "Stop" ∷ "Again" ∷ "Undo" ∷ "Cut" ∷ "Copy" ∷ "Paste"
    ∷ "Find" ∷ "Mute" ∷ []

-- Entries 128 to 191 of `sdlop_scancode_names`
names_from_128 : List String
names_from_128 =
    "VolumeUp" ∷ "VolumeDown" ∷ "" ∷ "" ∷ "" ∷ "Keypad ," ∷ "Keypad = (AS400)" ∷ "International 1"
    ∷ "International 2" ∷ "International 3" ∷ "International 4" ∷ "International 5"
    ∷ "International 6" ∷ "International 7" ∷ "International 8" ∷ "International 9" ∷ "Language 1"
    ∷ "Language 2" ∷ "Language 3" ∷ "Language 4" ∷ "Language 5" ∷ "Language 6" ∷ "Language 7"
    ∷ "Language 8" ∷ "Language 9" ∷ "AltErase" ∷ "SysReq" ∷ "Cancel" ∷ "Clear" ∷ "Prior" ∷ "Return"
    ∷ "Separator" ∷ "Out" ∷ "Oper" ∷ "Clear / Again" ∷ "CrSel" ∷ "ExSel" ∷ "" ∷ "" ∷ "" ∷ "" ∷ ""
    ∷ "" ∷ "" ∷ "" ∷ "" ∷ "" ∷ "" ∷ "Keypad 00" ∷ "Keypad 000" ∷ "ThousandsSeparator"
    ∷ "DecimalSeparator" ∷ "CurrencyUnit" ∷ "CurrencySubUnit" ∷ "Keypad (" ∷ "Keypad )" ∷ "Keypad {"
    ∷ "Keypad }" ∷ "Keypad Tab" ∷ "Keypad Backspace" ∷ "Keypad A" ∷ "Keypad B" ∷ "Keypad C"
    ∷ "Keypad D" ∷ []

-- Entries 192 to 290 of `sdlop_scancode_names`
names_from_192 : List String
names_from_192 =
    "Keypad E" ∷ "Keypad F" ∷ "Keypad XOR" ∷ "Keypad ^" ∷ "Keypad %" ∷ "Keypad <" ∷ "Keypad >"
    ∷ "Keypad &" ∷ "Keypad &&" ∷ "Keypad |" ∷ "Keypad ||" ∷ "Keypad :" ∷ "Keypad #" ∷ "Keypad Space"
    ∷ "Keypad @" ∷ "Keypad !" ∷ "Keypad MemStore" ∷ "Keypad MemRecall" ∷ "Keypad MemClear"
    ∷ "Keypad MemAdd" ∷ "Keypad MemSubtract" ∷ "Keypad MemMultiply" ∷ "Keypad MemDivide"
    ∷ "Keypad +/-" ∷ "Keypad Clear" ∷ "Keypad ClearEntry" ∷ "Keypad Binary" ∷ "Keypad Octal"
    ∷ "Keypad Decimal" ∷ "Keypad Hexadecimal" ∷ "" ∷ "" ∷ "Left Ctrl" ∷ "Left Shift" ∷ "Left Alt"
    ∷ "Left GUI" ∷ "Right Ctrl" ∷ "Right Shift" ∷ "Right Alt" ∷ "Right GUI" ∷ "" ∷ "" ∷ "" ∷ "" ∷ ""
    ∷ "" ∷ "" ∷ "" ∷ "" ∷ "" ∷ "" ∷ "" ∷ "" ∷ "" ∷ "" ∷ "" ∷ "" ∷ "" ∷ "" ∷ "" ∷ "" ∷ "" ∷ "" ∷ ""
    ∷ "" ∷ "ModeSwitch" ∷ "Sleep" ∷ "Wake" ∷ "ChannelUp" ∷ "ChannelDown" ∷ "MediaPlay"
    ∷ "MediaPause" ∷ "MediaRecord" ∷ "MediaFastForward" ∷ "MediaRewind" ∷ "MediaTrackNext"
    ∷ "MediaTrackPrevious" ∷ "MediaStop" ∷ "Eject" ∷ "MediaPlayPause" ∷ "MediaSelect" ∷ "AC New"
    ∷ "AC Open" ∷ "AC Close" ∷ "AC Exit" ∷ "AC Save" ∷ "AC Print" ∷ "AC Properties" ∷ "AC Search"
    ∷ "AC Home" ∷ "AC Back" ∷ "AC Forward" ∷ "AC Stop" ∷ "AC Refresh" ∷ "AC Bookmarks" ∷ "SoftLeft"
    ∷ "SoftRight" ∷ "Call" ∷ "EndCall" ∷ []

-- `sdlop_scancode_names`: the entries past 290 are empty.
unfoldable pub scancode_names : List String
unfolding names_from_0 names_from_64 names_from_128 names_from_192
scancode_names =
    names_from_0 ++ (names_from_64 ++ (names_from_128 ++ (names_from_192 ++ replicate 221 "")))
