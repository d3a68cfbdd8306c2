-- ===== src/Backend/ErrorCodes/Copy.antt =====
-- backend/error_codes.py: the codes that the API shows, with their texts.
use planes.Base.{String, [], ◌∷◌}
use planes.Base.Text.{f_string}

-- The codes.
pub data Code : Type 0 where
  infeasible_endurance_no_recharge : Code
  infeasible_wind_exceeds_fleet : Code
  infeasible_no_swaths : Code
  infeasible_terrain_clearance : Code
  timed_out_budget : Code
  error_uav_not_in_catalog : Code
  error_camera_not_in_catalog : Code
  error_camera_uav_incompatible : Code
  error_missing_aerodromes : Code
  error_unknown_aerodrome : Code
  error_no_boards : Code
  error_model_no_endurance_or_speed : Code
  error_worker_exception : Code
  offline_energy_uncovered : Code

abbrev pub code_text : Code → String
code_text infeasible_endurance_no_recharge = "INFEASIBLE_ENDURANCE_NO_RECHARGE"
code_text infeasible_wind_exceeds_fleet = "INFEASIBLE_WIND_EXCEEDS_FLEET"
code_text infeasible_no_swaths = "INFEASIBLE_NO_SWATHS"
code_text infeasible_terrain_clearance = "INFEASIBLE_TERRAIN_CLEARANCE"
code_text timed_out_budget = "TIMED_OUT_BUDGET"
code_text error_uav_not_in_catalog = "ERROR_UAV_NOT_IN_CATALOG"
code_text error_camera_not_in_catalog = "ERROR_CAMERA_NOT_IN_CATALOG"
code_text error_camera_uav_incompatible = "ERROR_CAMERA_UAV_INCOMPATIBLE"
code_text error_missing_aerodromes = "ERROR_MISSING_AERODROMES"
code_text error_unknown_aerodrome = "ERROR_UNKNOWN_AERODROME"
code_text error_no_boards = "ERROR_NO_BOARDS"
code_text error_model_no_endurance_or_speed = "ERROR_MODEL_NO_ENDURANCE_OR_SPEED"
code_text error_worker_exception = "ERROR_WORKER_EXCEPTION"
code_text offline_energy_uncovered = "OFFLINE_ENERGY_UNCOVERED"

-- `_COPY[code][0]`
abbrev pub message_ru : Code → String
message_ru infeasible_endurance_no_recharge = f_string (
    "При запрете дозарядки борт не успевает покрыть все галсы за один вылет. "
    ∷ "Включите дозарядку или добавьте борта / сократите зону." ∷ [])
message_ru infeasible_wind_exceeds_fleet = f_string (
    "Скорость ветра выше паспортного предела всех выбранных бортов. Уменьшите ветер "
    ∷ "в сценарии или выберите более ветроустойчивые модели." ∷ [])
message_ru infeasible_no_swaths = f_string (
    "По зонам съёмки не получилось сгенерировать маршрутные галсы. Проверьте "
    ∷ "полигоны съёмки и запретные зоны — возможно, зона слишком мала или полностью "
    ∷ "перекрыта ограничениями." ∷ [])
message_ru infeasible_terrain_clearance = f_string (
    "При строгой проверке рельефа найдены нарушения запаса высоты над землёй. "
    ∷ "Ослабьте safety_margin, поднимите AGL или отключите strict_terrain_check для " ∷ "демо."
    ∷ [])
message_ru timed_out_budget = f_string (
    "Оптимизатор не успел построить план за отведённый лимит. Упростите сценарий или "
    ∷ "увеличьте time_limit_seconds." ∷ [])
message_ru error_uav_not_in_catalog =
    "Выбранная модель БВС нет в каталоге флота. Выберите модель из списка каталога."
message_ru error_camera_not_in_catalog =
    "Выбранная камера отсутствует в каталоге. Выберите камеру из списка."
message_ru error_camera_uav_incompatible = f_string (
    "Эта камера не совместима с выбранной моделью БВС по каталогу. Выберите другую " ∷ "пару." ∷ [])
message_ru error_missing_aerodromes =
    "В сценарии нет ни одной ВПП. Добавьте хотя бы один аэродром с координатами."
message_ru error_unknown_aerodrome = "У борта указан аэродром, которого нет в списке ВПП сценария."
message_ru error_no_boards = "Добавьте хотя бы один борт (модель + камера + аэродром)."
message_ru error_model_no_endurance_or_speed = f_string (
    "В каталоге у выбранной модели не заданы корректные survey/airspeed или время "
    ∷ "полёта. Проверьте карточку модели." ∷ [])
message_ru error_worker_exception =
    f_string (
      "Внутренняя ошибка ядра планирования. Сохраните job_id и текст ошибки для " ∷ "команды." ∷ [])
message_ru offline_energy_uncovered = f_string (
    "При текущем запасе энергии часть зон остаётся непокрытой. Разрешите возврат на "
    ∷ "дозарядку или увеличьте энергобюджет / число бортов." ∷ [])

-- `_COPY[code][1]`
abbrev pub message_en : Code → String
message_en infeasible_endurance_no_recharge = f_string (
    "With recharge disabled the aircraft cannot cover all swaths in one sortie. "
    ∷ "Enable recharge, add aircraft, or shrink the survey area." ∷ [])
message_en infeasible_wind_exceeds_fleet = f_string (
    "The scenario wind exceeds the catalog limit of every selected aircraft. Reduce "
    ∷ "the wind or choose more wind-tolerant boards." ∷ [])
message_en infeasible_no_swaths = f_string (
    "No survey swaths could be generated. Check the survey polygons and restricted "
    ∷ "zones; the area may be too small or fully blocked." ∷ [])
message_en infeasible_terrain_clearance = f_string (
    "A strict terrain check found ground-clearance violations. Reduce the safety "
    ∷ "margin, raise AGL, or disable strict_terrain_check for the demo." ∷ [])
message_en timed_out_budget = f_string (
    "The optimizer did not finish a plan within the time budget. Simplify the "
    ∷ "scenario or increase time_limit_seconds." ∷ [])
message_en error_uav_not_in_catalog =
    "The selected UAV model is not in the fleet catalog. Choose a catalog model."
message_en error_camera_not_in_catalog =
    "The selected camera is not in the catalog. Choose a listed camera."
message_en error_camera_uav_incompatible =
    "This camera is not compatible with the selected UAV model. Choose another pair."
message_en error_missing_aerodromes =
    "The scenario has no aerodromes. Add at least one aerodrome with coordinates."
message_en error_unknown_aerodrome =
    "A board references an aerodrome that is not in the scenario list."
message_en error_no_boards = "Add at least one board (model + camera + aerodrome)."
message_en error_model_no_endurance_or_speed =
    "The selected model has no valid survey/airspeed or endurance in the catalog."
message_en error_worker_exception =
    f_string (
      "An internal planning error occurred. Keep the job_id and error text for the " ∷ "team." ∷ [])
message_en offline_energy_uncovered = f_string (
    "The current energy budget leaves some areas uncovered. Allow recharge or "
    ∷ "increase the energy budget / fleet size." ∷ [])
